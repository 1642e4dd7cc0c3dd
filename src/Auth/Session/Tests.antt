-- ===== src/Auth/Session/Tests.antt =====
-- Runs of refresh-token rotation at concrete rows.
use mathlib.Core.List.{Memᴰ}
use mascotapp.Base.{ℕ, ◌≡◌, ◌≢◌, refl, [], ◌∷◌, Option, none, some, ◌=ᵇ◌, arith, count}
use mascotapp.Errors.{refresh_token_invalid, refresh_token_reused}
use mascotapp.Db.State.{State, Outcome, RefreshToken, ok, IsQuiet, statement}
use mascotapp.Db.Tenant.{nil_uuid}
use mascotapp.Db.Auth.{with_auth_user}
use mascotapp.Db.Runs.{auth_scoped}
use mascotapp.Db.Queries.{
  in_live_family, update_where, revoke, owned, revoke_refresh_token_if_live, insert_refresh_token,
  set_refresh_token_replaced_by,
}
use mascotapp.Db.Samples.{uuid, server_with, toy_sha256}
use mascotapp.Auth.Session.Cookie.{format_refresh_cookie}
use mascotapp.Auth.Session.Reuse.{with_auth_user-reuse}
use mascotapp.Auth.Session.Entropy.{fit, draw, new_v7}
use mascotapp.Auth.Session.Rotation.{CanRotate, after_rotation, rotate-run}
use mascotapp.Auth.Session.Replay.{rotate-twice}
use mascotapp.Auth.Session.Race.Reach.{Dead, OneLive}
use mascotapp.Auth.Session.Race.Histories.{Server, rows, Reach, Step, Reach-Dead, Reach-OneLive}
use mascotapp.Auth.Session.{
  RotationOutcome, refusing, is_expired, succeed, issue_in_family_returning_id, rotate_presented,
  rotate_refresh_token,
}

abbrev token : ℕ → ℕ → Option ℕ → RefreshToken
token id secret revoked = record {
  id = uuid id;
  user_id = uuid 1;
  token_hash = toy_sha256 (secret ∷ []);
  family_id = uuid 2;
  expires_at = some 5000;
  revoked_at = revoked;
  replaced_by = none;
  user_agent = none;
  ip_hash = none;
  created_at = 0;
}

abbrev live_token : RefreshToken
live_token = token 3 9 none

abbrev spent_token : RefreshToken
spent_token = token 4 8 (some 500)

-- A family of a spent token and a live one.
abbrev server : State
server = server_with (spent_token ∷ live_token ∷ []) [] (some (7 ∷ []) ∷ []) (some (uuid 5) ∷ [])

server-IsQuiet : IsQuiet server
server-IsQuiet = record { no_faults = refl; writes = refl }

user_is_real : uuid 1 ≢ nil_uuid
user_is_real e = ground (arith, e)

abbrev Reused : State → Type 0
Reused s =
    let r = with_auth_user (uuid 1) (rotate_refresh_token toy_sha256 (8 ∷ []) 2000) s in
    (r.0 ≡ ok (refusing refresh_token_reused))
    × (count (in_live_family (some (uuid 1)) (uuid 2)) r.1.tables.refresh_tokens ≡ 0)
    × (r.1.tables.refresh_tokens
        ≡ update_where (in_live_family (some (uuid 1)) (uuid 2)) (revoke s.clock)
            s.tables.refresh_tokens)

with_auth_user-reuse_example : Reused server
unfolding ◌=ᵇ◌ owned
with_auth_user-reuse_example =
    with_auth_user-reuse toy_sha256 server (uuid 1) (8 ∷ []) spent_token 2000 user_is_real
      server-IsQuiet refl refl

inside-CanRotate :
    CanRotate toy_sha256 (auth_scoped (uuid 1) server) (9 ∷ []) live_token (7 ∷ []) (uuid 5) 2000
unfolding ◌=ᵇ◌ owned is_expired fit
inside-CanRotate = record {
  quiet = record { no_faults = refl; writes = refl };
  found = refl;
  live = refl;
  unexpired = refl;
  one_live = omega arith;
  draws_secret = ([], refl);
  draws_id = ([], refl);
  new = refl;
}

rotate-run_example : rotate_refresh_token toy_sha256 (9 ∷ []) 2000 (auth_scoped (uuid 1) server) ≡ (
  ok (record { cookie = format_refresh_cookie (uuid 1) (fit 32 (7 ∷ [])); refusal = none }),
  after_rotation toy_sha256 inside-CanRotate,
)
rotate-run_example = rotate-run toy_sha256 inside-CanRotate

abbrev twice : State → Outcome RotationOutcome × State
twice s =
    rotate_refresh_token toy_sha256 (9 ∷ []) 3000
      (rotate_refresh_token toy_sha256 (9 ∷ []) 2000 s).1

rotate-twice_example :
    ((twice (auth_scoped (uuid 1) server)).0 ≡ ok (refusing refresh_token_reused))
    × (count
          (in_live_family (some (uuid 1)) (uuid 2))
          (twice (auth_scoped (uuid 1) server)).1.tables.refresh_tokens
        ≡ 0)
rotate-twice_example = rotate-twice toy_sha256 inside-CanRotate 3000

-- At 6000 the live token has expired.
late_rotation :
    (rotate_refresh_token toy_sha256 (9 ∷ []) 6000 (auth_scoped (uuid 1) server)).0
    ≡ ok (refusing refresh_token_invalid)
unfolding rotate_refresh_token rotate_presented statement ◌=ᵇ◌ owned is_expired
late_rotation = refl

-- A dead family, and a rotation of a spent row of it.
abbrev dead_server : Server
dead_server = record {
  state = auth_scoped (uuid 1) (server_with (spent_token ∷ token 3 9 (some 600) ∷ []) [] [] []);
  waiting = [];
}

abbrev waiting_server : Server
waiting_server = record dead_server { waiting = spent_token ∷ [] }

abbrev after_reuse : Server
after_reuse = record waiting_server {
  state = (rotate_presented toy_sha256 spent_token 2000 waiting_server.state).1;
}

reuse_answer :
    (rotate_presented toy_sha256 spent_token 2000 waiting_server.state).0
    ≡ ok (refusing refresh_token_reused)
unfolding rotate_presented statement
reuse_answer = refl

reuse_steps : Reach toy_sha256 dead_server after_reuse
unfolding ◌=ᵇ◌
reuse_steps =
    Reach.next (Reach.next Reach.here (Step.read spent_token (refl, refl)))
      (Step.finish spent_token 2000 (refusing refresh_token_reused) (Memᴰ.head refl) reuse_answer)

Reach-Dead_example : Dead (uuid 2) (rows after_reuse)
unfolding ◌=ᵇ◌
Reach-Dead_example = Reach-Dead toy_sha256 (uuid 2) reuse_steps tt (refl, refl)

-- A family with one live token, which is rotated.
abbrev live_server : Server
live_server = record { state = auth_scoped (uuid 1) server; waiting = live_token ∷ [] }

abbrev after_rotating : Server
after_rotating = record live_server {
  state = (rotate_presented toy_sha256 live_token 2000 live_server.state).1;
}

abbrev rotation_answer : RotationOutcome
rotation_answer = record {
  cookie = format_refresh_cookie (uuid 1) (fit 32 (7 ∷ []));
  refusal = none;
}

rotated_once :
    (rotate_presented toy_sha256 live_token 2000 live_server.state).0 ≡ ok rotation_answer
unfolding rotate_presented statement revoke_refresh_token_if_live succeed
    issue_in_family_returning_id draw new_v7 insert_refresh_token set_refresh_token_replaced_by ◌=ᵇ◌
    owned is_expired fit
rotated_once = refl

rotation_steps : Reach toy_sha256 live_server after_rotating
rotation_steps =
    Reach.next Reach.here
      (Step.finish live_token 2000 rotation_answer (Memᴰ.head refl) rotated_once)

Reach-OneLive_example : OneLive (uuid 2) (rows after_rotating)
unfolding ◌=ᵇ◌
Reach-OneLive_example = Reach-OneLive toy_sha256 (uuid 2) rotation_steps (ground arith)
