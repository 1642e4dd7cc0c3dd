-- ===== src/Auth/Tests/Secrets.antt =====
-- Runs of envelopes and one-time passwords, with toy parameters: the cipher writes the length, the
-- text and the associated data in the open, and the HMAC is constant.
use mascotapp.Base.{
  ℕ, ◌+◌, ◌/◌, ◌≤◌, ◌≡◌, ◌≢◌, ◌↔◌, refl, ap, Bool, true, [], ◌∷◌, ◌++◌, Option, none, some, Bytes,
  ◌=ᵇ◌, =ᵇ_iff, =ᵇ_refl, replicate, arith, length, length-append, take, drop, take-append,
  drop-append, if◌then◌else◌, Bool-cases, inl, inr, codes,
}
use mascotapp.Base.Results.{pass, fail}
use mascotapp.Db.State.{State, ok}
use mascotapp.Db.Samples.{uuid, server_with}
use mascotapp.Auth.Session.Entropy.{fit}
use mascotapp.Auth.Envelope.{
  Envelope, not_authentic, associated_data, sealed_with, seal_envelope, open_envelope,
}
use mascotapp.Auth.Envelope.Opening.{
  open_envelope-seal_envelope, open_envelope-other_owner, open_envelope-pass,
}
use mascotapp.Auth.Totp.{verify_totp}
use mascotapp.Auth.Totp.Window.{MatchesNear, verify_totp-accepts}

abbrev pad : Bytes
pad = replicate 16 0

abbrev toy_seal : Bytes → Bytes → Bytes → Bytes → Bytes
toy_seal k n p a = length p ∷ (p ++ (a ++ pad))

abbrev toy_open : Bytes → Bytes → Bytes → Bytes → Option Bytes
toy_open k n [] a = none
toy_open k n (size ∷ rest) a = if drop size rest =ᵇ (a ++ pad) then some (take size rest) else none

toy_long : (k n p a : Bytes) → length p + 16 ≤ length (toy_seal k n p a)
toy_long k n p a = omega (arith, length-append p (a ++ pad), length-append a pad)

toy_opens : (k n p a : Bytes) → toy_open k n (toy_seal k n p a) a ≡ some p
toy_opens k n p a = rw (drop-append p (a ++ pad), take-append p (a ++ pad), =ᵇ_refl (a ++ pad)) refl

append_cancel : (a b z : Bytes) → length a ≡ length b → a ++ z ≡ b ++ z → a ≡ b
append_cancel [] [] z h e = refl
append_cancel [] (y ∷ ys) z h e = ground arith
append_cancel (x ∷ xs) [] z h e = ground arith
append_cancel (x ∷ xs) (y ∷ ys) z h e = ground (arith, append_cancel xs ys z)

pad_cancel : (a b : Bytes) → a ++ pad ≡ b ++ pad → a ≡ b
pad_cancel a b e =
    append_cancel a b pad (omega (arith, ap length e, length-append a pad, length-append b pad)) e

toy_binds : (k n p a b : Bytes) → a ≢ b → toy_open k n (toy_seal k n p a) b ≡ none
toy_binds k n p a b differs =
    rw (drop-append p (a ++ pad)) (elim (Bool-cases ((a ++ pad) =ᵇ (b ++ pad))) [
      | inl same ↦ elim (differs (pad_cancel a b ((=ᵇ_iff (a ++ pad) (b ++ pad)).0 same))) [ ]
      | inr other ↦ rw other refl
    ])

abbrev envelope : Envelope
envelope = record { key = replicate 32 1 }

abbrev server : State
server = server_with [] [] (some (4 ∷ 5 ∷ []) ∷ []) []

abbrev blob : Bytes
blob = sealed_with toy_seal toy_open envelope (fit 12 (4 ∷ 5 ∷ [])) (9 ∷ 8 ∷ []) (uuid 1)

seals : (seal_envelope toy_seal toy_open envelope (9 ∷ 8 ∷ []) (uuid 1) server).0 ≡ ok blob
unfolding seal_envelope
seals = refl

open_envelope-seal_envelope_example :
    open_envelope toy_seal toy_open envelope blob (uuid 1) ≡ pass (9 ∷ 8 ∷ [])
open_envelope-seal_envelope_example =
    open_envelope-seal_envelope toy_seal toy_open toy_long toy_opens toy_binds envelope (9 ∷ 8 ∷ [])
      (uuid 1) blob server seals

open_envelope-other_owner_example :
    open_envelope toy_seal toy_open envelope blob (uuid 2) ≡ fail not_authentic
open_envelope-other_owner_example =
    open_envelope-other_owner toy_seal toy_open toy_long toy_opens toy_binds envelope (9 ∷ 8 ∷ [])
      (uuid 1) (uuid 2) blob server seals (λ e. ground (arith, e))

opened : open_envelope toy_seal toy_open envelope blob (uuid 1) ≡ pass (9 ∷ 8 ∷ [])
unfolding open_envelope sealed_with ◌=ᵇ◌ fit associated_data
opened = refl

open_envelope-pass_example :
    (nonce : Bytes) × (sealed : Bytes) × (blob ≡ 1 ∷ 1 ∷ (nonce ++ sealed))
    × (length nonce ≡ 12)
    × (16 ≤ length sealed)
    × (toy_open envelope.key nonce sealed (1 ∷ 1 ∷ uuid 1) ≡ some (9 ∷ 8 ∷ []))
open_envelope-pass_example =
    open_envelope-pass toy_seal toy_open envelope blob (uuid 1) (9 ∷ 8 ∷ []) opened

abbrev toy_hmac : Bytes → Bytes → Bytes
toy_hmac key message = replicate 20 1

verify_totp-accepts_example :
    ((b : Bool) × (verify_totp toy_hmac (replicate 20 3) (codes "843009") 59000000000 ≡ some b))
    × ((verify_totp toy_hmac (replicate 20 3) (codes "843009") 59000000000 ≡ some true) ↔ (
        (length (replicate {A = ℕ} 20 3) ≡ 20)
        × MatchesNear toy_hmac
            (λ k m. refl)
            (replicate 20 3)
            (codes "843009")
            (59000000000 / 1000000000 / 30)))
verify_totp-accepts_example =
    verify_totp-accepts toy_hmac (λ k m. refl) (replicate 20 3) (codes "843009") 59000000000
