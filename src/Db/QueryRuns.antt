-- ===== src/Db/QueryRuns.antt =====
-- What the statements on refresh_tokens write and return when the driver runs them.
use mascotapp.Base.{◌≡◌, true, false, ◌++◌, [], ◌∷◌, Bytes, any, count, is_some, ◌=ᵇ◌}
use mascotapp.Db.State.{State, ok, statement-quiet, IsQuiet}
use mascotapp.Db.Queries.{
  owned, scope, with_tokens, update_where, revoke, point_at, live_with_id, own_with_id, inserted,
  InsertRefreshTokenParams, conflicts, revoke_refresh_token_if_live, insert_refresh_token,
  set_refresh_token_replaced_by,
}

module _ (s : State) (quiet : IsQuiet s) where
  pub revoke_if_live-run :
      (id : Bytes)
      → revoke_refresh_token_if_live id s ≡ (
        ok (count (live_with_id (scope s) id) s.tables.refresh_tokens),
        with_tokens
            (update_where (live_with_id (scope s) id) (revoke s.clock) s.tables.refresh_tokens)
            s,
      )
  unfolding revoke_refresh_token_if_live
  revoke_if_live-run id = rw (statement-quiet _ s quiet.no_faults, quiet.writes)

  pub insert-run :
      (arg : InsertRefreshTokenParams)
      → owned (scope s) arg.user_id ≡ true
      → is_some arg.expires_at ≡ true
      → any (conflicts arg) s.tables.refresh_tokens ≡ false
      → insert_refresh_token arg s
        ≡ (ok tt, with_tokens (s.tables.refresh_tokens ++ inserted s.clock arg ∷ []) s)
  unfolding insert_refresh_token
  insert-run arg mine due free =
      rw (statement-quiet _ s quiet.no_faults, quiet.writes, mine, due, free)

  pub set_replaced_by-run :
      (id successor : Bytes)
      → any (λ r. r.id =ᵇ successor) s.tables.refresh_tokens ≡ true
      → set_refresh_token_replaced_by id successor s ≡ (
        ok tt,
        with_tokens
            (update_where (own_with_id (scope s) id) (point_at successor) s.tables.refresh_tokens)
            s,
      )
  unfolding set_refresh_token_replaced_by
  set_replaced_by-run id successor there =
      rw (statement-quiet _ s quiet.no_faults, quiet.writes, there)
