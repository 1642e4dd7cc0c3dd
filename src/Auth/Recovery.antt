-- ===== src/Auth/Recovery.antt =====
-- apps/api/internal/auth/recovery.go: the recovery codes of an account. SHA-256 is a parameter.
pub mod Redeem
pub mod Regenerate
pub mod Fresh
use mascotapp.Base.{ℕ, zero, suc, Bytes, List, [], ◌∷◌, map, codes, ◌==◌, if◌then◌else◌}
use mascotapp.Errors.{recovery_code_invalid, empty_code_set}
use mascotapp.Db.State.{M, pure, throw, continue, ◌>>=◌, ◌>>◌}
use mascotapp.Db.Queries.{
  delete_recovery_codes_for_user, insert_recovery_code, redeem_recovery_code,
}
use mascotapp.Auth.Session.Entropy.{draw, new_v7}
use mascotapp.Encoding.Base32.{encode32}

-- RecoveryCodeCount
abbrev pub recovery_code_count : ℕ
recovery_code_count = 10

-- recoveryCodeBytes
abbrev pub recovery_code_bytes : ℕ
recovery_code_bytes = 16

pub record RecoveryCode : Type 0 where
  pub plaintext : Bytes
  pub hash : Bytes

module _ (sha256 : Bytes → Bytes) where
  -- HashRecoveryCode
  unfoldable pub hash_recovery_code : Bytes → Bytes
  hash_recovery_code plaintext = sha256 plaintext

  -- The loop of NewRecoveryCodes.
  unfoldable pub draw_codes : ℕ → M (List RecoveryCode)
  unfolding draw hash_recovery_code
  draw_codes zero = pure []
  draw_codes (suc n) = do
    raw ← draw recovery_code_bytes
    rest ← draw_codes n
    pure ((record { plaintext = encode32 raw; hash = hash_recovery_code (encode32 raw) }) ∷ rest)

  -- NewRecoveryCodes
  unfoldable pub new_recovery_codes : M (List RecoveryCode)
  unfolding draw_codes
  new_recovery_codes = draw_codes recovery_code_count

  -- RedeemRecoveryCode
  unfoldable pub redeem : Bytes → M (Unit {0})
  redeem plaintext = do
    affected ← redeem_recovery_code (hash_recovery_code plaintext)
    if affected == 0 then throw recovery_code_invalid else pure tt

-- The loop of RegenerateRecoveryCodes.
unfoldable pub store_codes : Bytes → List RecoveryCode → M (Unit {0})
store_codes user [] = pure tt
store_codes user (code ∷ codes_) = do
  id ← new_v7
  insert_recovery_code id user code.hash
  store_codes user codes_

-- RegenerateRecoveryCodes
unfoldable pub regenerate_recovery_codes : Bytes → List RecoveryCode → M (Unit {0})
regenerate_recovery_codes user [] = throw empty_code_set
regenerate_recovery_codes user (code ∷ codes_) = do
  deleted ← delete_recovery_codes_for_user user
  store_codes user (code ∷ codes_)
