-- ===== src/Db/Bootstrap.antt =====
-- apps/api/internal/db/bootstrap.go: the names and passwords that may be set for a role.
pub mod Roles
pub mod Password
mod Transaction
pub mod Set
mod Tests
use mascotapp.Base.{
  ℕ, Bool, true, false, not, ◌&&◌, ◌||◌, List, [], ◌∷◌, Option, none, some, Bytes, codes, ◌==◌, leb,
  all, is_empty, length, strip_prefix, trim_space, if◌then◌else◌,
}
use mascotapp.Base.Results.{Result, pass, fail}

-- ErrInvalidRoleName and ErrEmptyPassword
pub data RoleError : Type 0 where
  invalid_role_name empty_password : RoleError

abbrev pub is_lower : ℕ → Bool
is_lower c = leb b'a' c && leb c b'z'

-- [a-z0-9_]
abbrev pub is_role_char : ℕ → Bool
is_role_char c = is_lower c || (leb b'0' c && leb c b'9') || c == b'_'

-- [a-z][a-z0-9_]{0,40}
unfoldable pub is_role_suffix : Bytes → Bool
is_role_suffix [] = false
is_role_suffix (c ∷ cs) = is_lower c && leb (length cs) 40 && all is_role_char cs

-- roleNamePattern.MatchString
unfoldable pub is_role_name : Bytes → Bool
is_role_name role = elim (strip_prefix (codes "app_") role) [
  | none ↦ false
  | some suffix ↦ is_role_suffix suffix
]

-- ValidateRoleCredentials
unfoldable pub validate_role_credentials : Bytes → Bytes → Result RoleError (Unit {0})
validate_role_credentials role password =
    if not (is_role_name role)
    then fail invalid_role_name
    else if is_empty (trim_space password)
    then fail empty_password
    else pass tt
