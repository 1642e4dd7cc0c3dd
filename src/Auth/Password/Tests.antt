-- ===== src/Auth/Password/Tests.antt =====
-- A hash and its verification, with a toy derivation: as many bytes as asked for, of the first byte
-- of the password.
use mascotapp.Base.{
  ℕ, zero, suc, ◌%◌, ◌≡◌, refl, ap, true, [], ◌∷◌, some, Bytes, Byte, All, codes, ◌=ᵇ◌, replicate,
  length, arith,
}
use mascotapp.Base.Results.{pass}
use mascotapp.Db.State.{State, ok}
use mascotapp.Db.Samples.{server_with}
use mascotapp.Auth.Session.Entropy.{fit}
use mascotapp.Auth.Password.{default_params, phc_text, hash_password_with_params, verify_password}
use mascotapp.Auth.Password.Verifying.{InRange, verify_password-hash}

abbrev first_byte : Bytes → ℕ
first_byte [] = 0
first_byte (c ∷ cs) = c % 256

abbrev toy_key : Bytes → Bytes → ℕ → ℕ → ℕ → ℕ → Bytes
toy_key password salt t m l k = replicate k (first_byte password)

toy_sized : (password salt : Bytes) (t m l k : ℕ) → length (toy_key password salt t m l k) ≡ k
toy_sized password salt t m l zero = refl
toy_sized password salt t m l (suc k) = ap suc (toy_sized password salt t m l k)

first_byte-Byte : (password : Bytes) → Byte (first_byte password)
first_byte-Byte [] = omega arith
first_byte-Byte (c ∷ cs) = omega arith

toy_bytes : (password salt : Bytes) (t m l k : ℕ) → All Byte (toy_key password salt t m l k)
toy_bytes password salt t m l zero = tt
toy_bytes password salt t m l (suc k) = (first_byte-Byte password, toy_bytes password salt t m l k)

abbrev server : State
server = server_with [] [] (some (1 ∷ 2 ∷ []) ∷ []) []

abbrev salt : Bytes
salt = fit 16 (1 ∷ 2 ∷ [])

abbrev encoded : Bytes
encoded = phc_text default_params salt (toy_key (codes "pw") salt 3 65536 1 32)

hashes : (hash_password_with_params toy_key (codes "pw") default_params server).0 ≡ ok encoded
unfolding hash_password_with_params
hashes = refl

default_params-InRange : InRange default_params
default_params-InRange = (omega arith, omega arith, omega arith, omega arith, omega arith)

verify_password-hash_example :
    (verify_password toy_key encoded (codes "pw") ≡ pass true)
    × ((drawn : Bytes) × (verify_password toy_key encoded (codes "no")
          ≡ pass
              (toy_key (codes "no") drawn 3 65536 1 32 =ᵇ toy_key (codes "pw") drawn 3 65536 1 32)))
verify_password-hash_example =
    verify_password-hash toy_key toy_sized toy_bytes (codes "pw") encoded (codes "no")
      default_params server default_params-InRange hashes

verifies : verify_password toy_key encoded (codes "pw") ≡ pass true
verifies =
    (verify_password-hash toy_key toy_sized toy_bytes (codes "pw") encoded (codes "no")
      default_params server default_params-InRange hashes).0
