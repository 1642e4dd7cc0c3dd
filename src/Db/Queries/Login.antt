-- ===== src/Db/Queries/Login.antt =====
-- The lookups of apps/api/internal/db/sqlcgen/auth.sql.go that a login needs, over the policies of
-- migration 00013: app_auth reads every user, and the memberships of app.user_id alone. The tables
-- users and memberships, which no query of this door writes, are arguments.
pub mod Seen
mod Tests
use mascotapp.Base.{
  ℕ, Bool, true, false, ◌&&◌, List, [], ◌∷◌, Option, Bytes, ◌=ᵇ◌, find, map, to_lower,
  if◌then◌else◌,
}
use mascotapp.Errors.{looking_up}
use mascotapp.Db.State.{TotpRecoveryCode, ok, M, ◌>>◌, statement}
use mascotapp.Db.Queries.{owned, scope}

-- GetRecoveryCodeByHash; `none` is pgx.ErrNoRows.
unfoldable pub get_recovery_code_by_hash : Bytes → M (Option TotpRecoveryCode)
unfolding owned
get_recovery_code_by_hash hash = do
  statement looking_up
  (λ s. (
    ok (find (λ r. owned (scope s) r.user_id && (r.code_hash =ᵇ hash)) s.tables.recovery_codes),
    s,
  ))

-- The columns of users that app_auth may read.
pub record GetUserCredentialsByEmailRow : Type 0 where
  pub id : Bytes
  pub email : Bytes
  pub password_hash : Option Bytes
  pub status : Bytes
  pub totp_secret_enc : Bytes
  pub email_verified_at : Option ℕ
  pub created_at : Option ℕ

-- users.email is citext (migration 00002), which compares texts in lower case. The letters outside
-- ASCII, whose lower case depends on the server's locale, are compared as they are.
abbrev pub fold_case : Bytes → Bytes
fold_case = map to_lower

-- GetUserCredentialsByEmail; `none` is pgx.ErrNoRows.
unfoldable pub get_user_credentials_by_email :
    List GetUserCredentialsByEmailRow → Bytes → M (Option GetUserCredentialsByEmailRow)
unfolding to_lower
get_user_credentials_by_email users email = do
  statement looking_up
  (λ s. (ok (find (λ r. fold_case r.email =ᵇ fold_case email) users), s))

pub record ListOwnMembershipsRow : Type 0 where
  pub id : Bytes
  pub user_id : Bytes
  pub shelter_id : Bytes
  pub role : Bytes
  pub status : Bytes

-- The rows that ListOwnMemberships reads in a scope.
unfoldable pub memberships_of :
    Option Bytes → Bytes → List ListOwnMembershipsRow → List ListOwnMembershipsRow
unfolding owned
memberships_of u user [] = []
memberships_of u user (r ∷ rs) =
    let rest = memberships_of u user rs in
    if owned u r.user_id && (r.user_id =ᵇ user) then r ∷ rest else rest

-- ListOwnMemberships
unfoldable pub list_own_memberships :
    List ListOwnMembershipsRow → Bytes → M (List ListOwnMembershipsRow)
unfolding memberships_of
list_own_memberships memberships user = do
  statement looking_up
  (λ s. (ok (memberships_of (scope s) user memberships), s))
