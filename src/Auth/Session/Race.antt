-- ===== src/Auth/Session/Race.antt =====
-- Rotations that run side by side. A rotation reads the presented row, and then waits for the lock
-- of the row's family: what it does from there on is one step, and the row that it holds may be
-- stale by then.
pub mod Known
pub mod Reach
pub mod Histories
pub mod Closed
use mascotapp.Base.{
  ℕ, zero, suc, ◌+◌, ◌≤◌, ◌≡◌, ◌∙◌, ap, refl, ◌≢◌, inl, inr, Bool, Bool-cases, true, false, not,
  ◌&&◌, ◌||◌, List, [], ◌∷◌, ◌++◌, Option, none, some, Bytes, ◌=ᵇ◌, =ᵇ_iff, =ᵇ_refl, arith, count,
  count-append, any, all, is_some, ◌==◌,
}
use mascotapp.Errors.{rotation_lost}
use mascotapp.Db.State.{State, RefreshToken, ok, err, statement, statement-quiet, IsQuiet}
use mascotapp.Db.Hoare.{Keeps, Keeps->>=, Keeps-bind, After}
use mascotapp.Db.Queries.{
  InsertRefreshTokenParams, conflicts, inserted, owned, scope, with_tokens, update_where, revoke,
  point_at, live_with_id, own_with_id, in_live_family, lock_refresh_token_family,
  revoke_refresh_token_family, revoke_refresh_token_if_live, insert_refresh_token,
  set_refresh_token_replaced_by,
}
use mascotapp.Db.QueryRuns.{revoke_if_live-run}
use mascotapp.Auth.Session.Rows.{live_in, live-revoke, live-point_at}
use mascotapp.Auth.Session.Entropy.{draw, new_v7}
use mascotapp.Auth.Session.{
  RotationOutcome, is_expired, succeed, rotate_presented, issue_in_family_returning_id,
  new_refresh_secret, hash_refresh_secret,
}

update_where_none :
    (q : RefreshToken → Bool) (f : RefreshToken → RefreshToken) (rs : List RefreshToken)
    → count q rs ≡ 0
    → update_where q f rs ≡ rs
unfolding update_where
update_where_none q f [] h = refl
update_where_none q f (r ∷ rs) h = ground (arith, update_where_none q f rs)

module _ (sha256 : Bytes → Bytes) where
  -- A rotation that holds a row read as live and not expired, and finds it revoked by now, is
  -- refused with an error that wraps ErrRefreshTokenInvalid, and writes nothing.
  pub rotate_presented-stale :
      (s : State) (p : RefreshToken) (now : ℕ)
      → IsQuiet s
      → p.revoked_at ≡ none
      → is_expired p now ≡ false
      → count (live_with_id (scope s) p.id) s.tables.refresh_tokens ≡ 0
      → rotate_presented sha256 p now s ≡ (err rotation_lost, s)
  unfolding rotate_presented
  rotate_presented-stale s p now quiet live unexpired gone = rw (
    statement-quiet _ s quiet.no_faults,
    ap is_some live,
    unexpired,
    revoke_if_live-run s quiet p.id,
    gone,
    update_where_none (live_with_id (scope s) p.id) (revoke s.clock) s.tables.refresh_tokens gone,
  )
