-- ===== src/Auth/Session/Reuse.antt =====
-- What RotateRefreshToken does with a token that was spent, that has expired, or that it cannot
-- see, and what it writes on each of its paths.
use mascotapp.Base.{
  ℕ, ◌≡◌, ◌∙◌, refl, ◌≢◌, true, ◌&&◌, List, Option, some, Bytes, ◌=ᵇ◌, arith, count, find, is_some,
}
use mascotapp.Errors.{refresh_token_invalid, refresh_token_reused}
use mascotapp.Db.State.{State, RefreshToken, ok, statement, statement-quiet, IsQuiet}
use mascotapp.Db.Tenant.{nil_uuid}
use mascotapp.Db.Auth.{with_auth_user}
use mascotapp.Db.Runs.{auth_scoped, with_auth_user-run}
use mascotapp.Db.Queries.{
  revoke_refresh_token_if_live, insert_refresh_token, set_refresh_token_replaced_by, owned, scope,
  in_live_family, with_tokens, update_where, revoke,
}
use mascotapp.Auth.Session.Rows.{live-revoke_family}
use mascotapp.Auth.Session.Entropy.{draw, new_v7}
use mascotapp.Auth.Session.{
  succeed, issue_in_family_returning_id, refusing, rotate_presented, rotate_refresh_token,
}

-- The state after the family of a row was revoked.
abbrev family_revoked : RefreshToken → State → State
family_revoked p s =
    with_tokens
      (update_where (in_live_family (scope s) p.family_id) (revoke s.clock) s.tables.refresh_tokens)
      s

module _ (sha256 : Bytes → Bytes) where
  -- The row that the lookup of a secret finds under the policy of a user.
  abbrev pub presents : Option Bytes → Bytes → List RefreshToken → Option RefreshToken
  presents u secret rs = find (λ r. owned u r.user_id && (r.token_hash =ᵇ sha256 secret)) rs

  pub rotate_found :
      (s : State) (secret : Bytes) (p : RefreshToken) (now : ℕ)
      → IsQuiet s
      → presents (scope s) secret s.tables.refresh_tokens ≡ some p
      → rotate_refresh_token sha256 secret now s ≡ rotate_presented sha256 p now s
  unfolding rotate_refresh_token
  rotate_found s secret p now quiet found = rw (statement-quiet _ s quiet.no_faults, found)

  pub rotate_presented-reuse :
      (s : State) (p : RefreshToken) (now : ℕ)
      → IsQuiet s
      → is_some p.revoked_at ≡ true
      → rotate_presented sha256 p now s ≡ (ok (refusing refresh_token_reused), family_revoked p s)
  unfolding rotate_presented
  rotate_presented-reuse s p now quiet spent = rw (
    statement-quiet _ s quiet.no_faults,
    spent,
    statement-quiet _ s quiet.no_faults,
    quiet.writes,
  )

  -- Where the statements run, a secret whose row is already revoked is refused as reuse, and the
  -- refusal is committed with the revocation of the family: the live rows of it that the user owns
  -- are revoked, so that none is left, and the other rows are as they were.
  pub with_auth_user-reuse :
      (s : State) (user secret : Bytes) (p : RefreshToken) (now : ℕ)
      → user ≢ nil_uuid
      → IsQuiet s
      → presents (some user) secret s.tables.refresh_tokens ≡ some p
      → is_some p.revoked_at ≡ true
      → let r = with_auth_user user (rotate_refresh_token sha256 secret now) s in
        (r.0 ≡ ok (refusing refresh_token_reused))
        × (count (in_live_family (some user) p.family_id) r.1.tables.refresh_tokens ≡ 0)
        × (r.1.tables.refresh_tokens
            ≡ update_where
                (in_live_family (some user) p.family_id)
                (revoke s.clock)
                s.tables.refresh_tokens)
  with_auth_user-reuse s user secret p now real quiet found spent =
      let inside = auth_scoped user s in
      let still : IsQuiet inside = record { no_faults = quiet.no_faults; writes = quiet.writes } in
      let ran =
        rotate_found inside secret p now still found
        ∙ rotate_presented-reuse inside p now still spent in
      rw
        (with_auth_user-run user (rotate_refresh_token sha256 secret now) s _ _ real quiet.no_faults
          ran quiet.no_faults)
        (refl, live-revoke_family (some user) p.family_id s.clock s.tables.refresh_tokens, refl)

  -- Whatever the driver does, a rotation that is answered with ErrRefreshTokenInvalid and no error
  -- has written nothing: a session that sat unused is not burned.
  pub rotate-invalid :
      (s : State) (secret : Bytes) (now : ℕ)
      → (rotate_refresh_token sha256 secret now s).0 ≡ ok (refusing refresh_token_invalid)
      → (rotate_refresh_token sha256 secret now s).1.tables ≡ s.tables
  unfolding statement rotate_refresh_token rotate_presented revoke_refresh_token_if_live succeed
      issue_in_family_returning_id insert_refresh_token set_refresh_token_replaced_by draw new_v7
  rotate-invalid s secret now h = ground arith
