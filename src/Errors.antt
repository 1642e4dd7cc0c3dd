-- ===== src/Errors.antt =====
-- The sentinel errors of apps/api/internal/auth and apps/api/internal/db, the errors of the driver
-- and of the random source, and which sentinel each one wraps.
use mascotapp.Base.{Bool, true, false}

-- The operation that an error of the driver is wrapped with.
pub data Stage : Type 0 where
  beginning setting_scope committing : Stage
  looking_up locking_family revoking_family revoking_presented storing_token pointing : Stage
  clearing_codes storing_code redeeming : Stage

pub data Error : Type 0 where
  refresh_token_invalid refresh_token_reused rotation_lost : Error
  recovery_code_invalid empty_code_set : Error
  no_tenant no_auth_user : Error
  entropy_failed id_failed zero_cost : Error
  -- A statement that the driver or the server did not run.
  driver_failed : Stage → Error
  -- A statement that the server refused: a constraint or a policy.
  refused : Stage → Error

-- errors.Is(err, ErrRefreshTokenInvalid)
unfoldable pub is_refresh_token_invalid : Error → Bool
is_refresh_token_invalid refresh_token_invalid = true
is_refresh_token_invalid refresh_token_reused = true
is_refresh_token_invalid rotation_lost = true
is_refresh_token_invalid _ = false

-- errors.Is(err, ErrRefreshTokenReused)
unfoldable pub is_refresh_token_reused : Error → Bool
is_refresh_token_reused refresh_token_reused = true
is_refresh_token_reused _ = false
