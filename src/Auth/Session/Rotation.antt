-- ===== src/Auth/Session/Rotation.antt =====
-- A rotation that succeeds: what it writes, what it returns, and what the presented secret is good
-- for afterwards.
use mascotapp.Base.{
  ℕ, ◌≤◌, ◌≡◌, ◌∙◌, ap, refl, ◌≢◌, true, false, ◌++◌, [], ◌∷◌, List, Option, none, some, Bytes,
  ◌=ᵇ◌, =ᵇ_refl, arith, count, any, is_some, ◌+◌, ◌==◌,
}
use mascotapp.Db.State.{State, RefreshToken, ok, statement-quiet, IsQuiet}
use mascotapp.Db.Queries.{
  owned, scope, with_tokens, update_where, revoke, point_at, live_with_id, own_with_id, inserted,
  InsertRefreshTokenParams, conflicts,
}
use mascotapp.Db.QueryRuns.{revoke_if_live-run, insert-run, set_replaced_by-run}
use mascotapp.Auth.Session.Rows.{
  live_in, find-passes, find-count, live-revoke_found, names, names-revoke, conflicts_free,
  any-append,
}
use mascotapp.Auth.Session.Cookie.{format_refresh_cookie}
use mascotapp.Auth.Session.Entropy.{fit, draw-run, new_v7-run}
use mascotapp.Auth.Session.Reuse.{presents, rotate_found}
use mascotapp.Auth.Session.{
  is_expired, succeed, rotate_presented, rotate_refresh_token, refresh_token_lifetime,
  issue_in_family_returning_id,
}

not_zero : (n : ℕ) → n ≢ 0 → (n == 0) ≡ false
not_zero n h = ground arith

module _ (sha256 : Bytes → Bytes) where
  -- The successor of a row.
  abbrev pub successor_of : RefreshToken → List ℕ → Bytes → ℕ → InsertRefreshTokenParams
  successor_of p xs id now = record {
    id = id;
    user_id = p.user_id;
    token_hash = sha256 (fit 32 xs);
    family_id = p.family_id;
    expires_at = some (now + refresh_token_lifetime);
  }

  -- The rows after a rotation: the presented one is revoked and points at its successor.
  abbrev pub rotated_rows : State → RefreshToken → List ℕ → Bytes → ℕ → List RefreshToken
  rotated_rows s p xs id now = update_where (own_with_id (scope s) p.id) (point_at id) (
      update_where (live_with_id (scope s) p.id) (revoke s.clock) s.tables.refresh_tokens
      ++ inserted s.clock (successor_of p xs id now) ∷ [])

  -- What a rotation needs to succeed: the statements run, the secret presents a row that is live and
  -- not expired, its family has no other live row, and the generators give a new secret and id.
  pub record CanRotate (s : State) (secret : Bytes) (p : RefreshToken) (xs : List ℕ) (id : Bytes)
      (now : ℕ) : Type 0 where
    pub quiet : IsQuiet s
    pub found : presents sha256 (scope s) secret s.tables.refresh_tokens ≡ some p
    pub live : p.revoked_at ≡ none
    pub unexpired : is_expired p now ≡ false
    pub one_live : count (live_in p.family_id) s.tables.refresh_tokens ≤ 1
    pub draws_secret : (ds : List (Option Bytes)) × (s.draws ≡ some xs ∷ ds)
    pub draws_id : (is : List (Option Bytes)) × (s.ids ≡ some id ∷ is)
    pub new : any (names id (sha256 (fit 32 xs))) s.tables.refresh_tokens ≡ false

  issued :
      (s : State) (p : RefreshToken) (xs : List ℕ) (id : Bytes) (now : ℕ)
      (ds is : List (Option Bytes))
      → IsQuiet s
      → s.draws ≡ some xs ∷ ds
      → s.ids ≡ some id ∷ is
      → owned (scope s) p.user_id ≡ true
      → any (conflicts (successor_of p xs id now)) s.tables.refresh_tokens ≡ false
      → issue_in_family_returning_id sha256 p.user_id p.family_id now s ≡ (
        ok (format_refresh_cookie p.user_id (fit 32 xs), id),
        record (with_tokens
            (s.tables.refresh_tokens ++ inserted s.clock (successor_of p xs id now) ∷ [])
            s) { draws = ds; ids = is },
      )
  unfolding issue_in_family_returning_id
  issued s p xs id now ds is quiet d i mine free =
      let drawn = record s { draws = ds } in
      let named = record s { draws = ds; ids = is } in
      let still : IsQuiet named = record { no_faults = quiet.no_faults; writes = quiet.writes } in
      rw (
        draw-run 32 s xs ds d,
        new_v7-run drawn id is i,
        insert-run named still (successor_of p xs id now) mine refl free,
      )

  -- The state between the two halves of the write.
  abbrev after_revoke : State → RefreshToken → State
  after_revoke s p =
      with_tokens
        (update_where (live_with_id (scope s) p.id) (revoke s.clock) s.tables.refresh_tokens) s

  module _ {s : State} {secret : Bytes} {p : RefreshToken} {xs : List ℕ} {id : Bytes} {now : ℕ}
      (can : CanRotate s secret p xs id now) where
    owner : owned (scope s) p.user_id ≡ true
    owner = ground (arith, find-passes _ s.tables.refresh_tokens p can.found)

    presented_live : live_with_id (scope s) p.id p ≡ true
    presented_live = ground (arith, owner, can.live, =ᵇ_refl p.id)

    presented_in_family : live_in p.family_id p ≡ true
    presented_in_family = ground (arith, can.live, =ᵇ_refl p.family_id)

    -- Once the presented row is revoked, the successor meets no constraint.
    successor_fits :
        any (conflicts (successor_of p xs id now)) (after_revoke s p).tables.refresh_tokens ≡ false
    successor_fits =
        conflicts_free (successor_of p xs id now) _
          (names-revoke id (sha256 (fit 32 xs)) _ s.clock s.tables.refresh_tokens ∙ can.new)
          (omega (
            arith,
            can.one_live,
            live-revoke_found _ (live_with_id (scope s) p.id) p.family_id s.clock
                s.tables.refresh_tokens p can.found presented_live presented_in_family,
          ))

    -- The state after the rotation.
    abbrev pub after_rotation : State
    after_rotation = record (with_tokens (rotated_rows s p xs id now) s) {
      draws = can.draws_secret.0;
      ids = can.draws_id.0;
    }

    abbrev after_insert : State
    after_insert =
        record (with_tokens
          ((after_revoke s p).tables.refresh_tokens
            ++ inserted s.clock (successor_of p xs id now) ∷ [])
          s) { draws = can.draws_secret.0; ids = can.draws_id.0 }

    succeed-run : succeed sha256 p now (after_revoke s p) ≡ (
      ok (record { cookie = format_refresh_cookie p.user_id (fit 32 xs); refusal = none }),
      after_rotation,
    )
    unfolding succeed
    succeed-run =
        let still : IsQuiet (after_revoke s p) = record {
          no_faults = can.quiet.no_faults;
          writes = can.quiet.writes;
        } in
        rw (
          issued (after_revoke s p) p xs id now can.draws_secret.0 can.draws_id.0 still
              can.draws_secret.1 can.draws_id.1 owner successor_fits,
          set_replaced_by-run after_insert
              (record { no_faults = can.quiet.no_faults; writes = can.quiet.writes }) p.id id
              (any-append (λ r. r.id =ᵇ id) (after_revoke s p).tables.refresh_tokens
                (inserted s.clock (successor_of p xs id now)) (=ᵇ_refl id)),
        )

    -- A rotation that can succeed does. It returns the cookie of the new secret for the row's own
    -- user; the presented row is revoked and points at its successor, which is live in the same family
    -- for the lifetime from `now`, and no other row has changed.
    pub rotate-run : rotate_refresh_token sha256 secret now s ≡ (
      ok (record { cookie = format_refresh_cookie p.user_id (fit 32 xs); refusal = none }),
      after_rotation,
    )
    unfolding rotate_presented
    rotate-run =
        rotate_found sha256 s secret p now can.quiet can.found
        ∙ rw
            (
              statement-quiet _ s can.quiet.no_faults,
              ap is_some can.live,
              can.unexpired,
              revoke_if_live-run s can.quiet p.id,
              not_zero _ (
                  find-count _ (live_with_id (scope s) p.id) s.tables.refresh_tokens p can.found
                    presented_live),
            )
            succeed-run
