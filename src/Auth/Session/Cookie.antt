-- ===== src/Auth/Session/Cookie.antt =====
-- The cookie value of apps/api/internal/auth/session.go: two base64url texts joined by a dot.
use mascotapp.Base.{ℕ, List, [], ◌∷◌, ◌++◌, Option, Bytes, split, length, ◌==◌, if◌then◌else◌}
use mascotapp.Base.Results.{Result, pass, fail, ◌>>=◌, or_fail}
use mascotapp.Encoding.{raw_url, encode, decode}

-- RefreshSecretLength
abbrev pub refresh_secret_length : ℕ
refresh_secret_length = 32

pub record RefreshCookie : Type 0 where
  pub user_id : Bytes
  pub secret : Bytes

-- The refusals of ParseRefreshCookie, all of which wrap ErrRefreshTokenInvalid.
pub data CookieError : Type 0 where
  not_two_parts user_not_base64 user_not_uuid secret_not_base64 : CookieError
  secret_has_length : ℕ → CookieError

-- FormatRefreshCookie
unfoldable pub format_refresh_cookie : Bytes → Bytes → Bytes
format_refresh_cookie user secret = encode raw_url user ++ b'.' ∷ encode raw_url secret

-- `from_bytes` is uuid.FromBytes.
module _ (from_bytes : Bytes → Option Bytes) where
  unfoldable pub parse_parts : List Bytes → Result CookieError RefreshCookie
  parse_parts (user_part ∷ secret_part ∷ []) = do
    raw_user ← or_fail (decode raw_url user_part) user_not_base64
    user ← or_fail (from_bytes raw_user) user_not_uuid
    secret ← or_fail (decode raw_url secret_part) secret_not_base64
    if length secret == refresh_secret_length
        then pass (record { user_id = user; secret = secret })
        else fail (secret_has_length (length secret))
  parse_parts _ = fail not_two_parts

  -- ParseRefreshCookie
  unfoldable pub parse_refresh_cookie : Bytes → Result CookieError RefreshCookie
  unfolding parse_parts
  parse_refresh_cookie raw = parse_parts (split b'.' raw)
