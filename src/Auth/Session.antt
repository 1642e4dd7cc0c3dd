-- ===== src/Auth/Session.antt =====
-- apps/api/internal/auth/session.go: refresh tokens, their rotation, and the detection of reuse.
-- An instant is a number of nanoseconds from a fixed origin. SHA-256 and the library that checks
-- the length of a uuid are parameters.
pub mod Cookie
pub mod Rows
pub mod Reuse
pub mod Rotation
pub mod Replay
pub mod Race
pub mod CookieLaws
pub mod Entropy
mod Tests
use mascotapp.Base.{
  ℕ, ◌+◌, Bool, true, false, not, ◌&&◌, ◌||◌, List, [], Option, none, some, Bytes, ltb, ◌==◌,
  if◌then◌else◌, is_some,
}
use mascotapp.Errors.{Error, refresh_token_invalid, refresh_token_reused, rotation_lost}
use mascotapp.Db.State.{RefreshToken, M, pure, throw, continue, ◌>>=◌, ◌>>◌}
use mascotapp.Db.Queries.{
  get_refresh_token_by_hash, lock_refresh_token_family, revoke_refresh_token_family,
  revoke_refresh_token_if_live, insert_refresh_token, set_refresh_token_replaced_by,
}
use Cookie.{format_refresh_cookie, refresh_secret_length}
use Entropy.{draw, new_uuid, new_v7}

-- RefreshTokenLifetime: 30 * 24 * time.Hour
abbrev pub refresh_token_lifetime : ℕ
refresh_token_lifetime = 2592000000000000

pub record RotationOutcome : Type 0 where
  pub cookie : Bytes
  pub refusal : Option Error

abbrev pub refusing : Error → RotationOutcome
refusing e = record { cookie = []; refusal = some e }

-- NewRefreshSecret
unfoldable pub new_refresh_secret : M Bytes
new_refresh_secret = draw refresh_secret_length

-- expires_at is NULL, or not after `now`.
unfoldable pub is_expired : RefreshToken → ℕ → Bool
is_expired r now = elim r.expires_at [ none ↦ true | some t ↦ not (ltb now t) ]

module _ (sha256 : Bytes → Bytes) where
  -- HashRefreshSecret
  unfoldable pub hash_refresh_secret : Bytes → Bytes
  hash_refresh_secret secret = sha256 secret

  -- issueInFamilyReturningID: the cookie, and the id of the row.
  unfoldable pub issue_in_family_returning_id : Bytes → Bytes → ℕ → M (Bytes × Bytes)
  unfolding new_refresh_secret hash_refresh_secret
  issue_in_family_returning_id user family now = do
    secret ← new_refresh_secret
    id ← new_v7
    insert_refresh_token (record {
      id = id;
      user_id = user;
      token_hash = hash_refresh_secret secret;
      family_id = family;
      expires_at = some (now + refresh_token_lifetime);
    })
    pure (format_refresh_cookie user secret, id)

  -- issueInFamily
  unfoldable pub issue_in_family : Bytes → Bytes → ℕ → M Bytes
  unfolding issue_in_family_returning_id
  issue_in_family user family now = do
    issued ← issue_in_family_returning_id user family now
    pure issued.0

  -- IssueRefreshToken: a session family of its own.
  unfoldable pub issue_refresh_token : Bytes → ℕ → M Bytes
  unfolding issue_in_family
  issue_refresh_token user now = do family ← new_uuid; issue_in_family user family now

  -- The end of RotateRefreshToken, once the presented row is revoked: the successor, and the
  -- pointer to it.
  unfoldable pub succeed : RefreshToken → ℕ → M RotationOutcome
  succeed presented now = do
    fresh ← issue_in_family_returning_id presented.user_id presented.family_id now
    set_refresh_token_replaced_by presented.id fresh.1
    pure (record { cookie = fresh.0; refusal = none })

  -- RotateRefreshToken after the row was read, from the lock of its family on.
  unfoldable pub rotate_presented : RefreshToken → ℕ → M RotationOutcome
  unfolding lock_refresh_token_family revoke_refresh_token_family
  rotate_presented presented now = do
    lock_refresh_token_family presented.family_id
    if is_some presented.revoked_at
        then (do
          _ ← revoke_refresh_token_family presented.family_id
          pure (refusing refresh_token_reused))
        else if is_expired presented now
        then pure (refusing refresh_token_invalid)
        else (do
          revoked ← revoke_refresh_token_if_live presented.id
          if revoked == 0 then throw rotation_lost else succeed presented now)

  -- RotateRefreshToken
  unfoldable pub rotate_refresh_token : Bytes → ℕ → M RotationOutcome
  unfolding get_refresh_token_by_hash hash_refresh_secret
  rotate_refresh_token secret now = do
    found ← get_refresh_token_by_hash (hash_refresh_secret secret)
    elim found [
      | none ↦ pure (refusing refresh_token_invalid)
      | some presented ↦ rotate_presented presented now
    ]
