-- ===== src/Auth/Recovery/Fresh.antt =====
-- The codes that NewRecoveryCodes draws.
use mascotapp.Base.{
  ℕ, zero, suc, ◌≡◌, refl, sym, subst, ap, ◌∙◌, List, ◌∷◌, Bytes, Byte, All, length, arith,
}
use mascotapp.Db.Hoare.{bind-ok}
use mascotapp.Db.State.{State, ok}
use mascotapp.Encoding.Base32.{IsBase32, encode32, encode32-IsBase32, length-encode32}
use mascotapp.Auth.Session.Entropy.{fit, fit-Byte, length-fit, draw, draw-ok}
use mascotapp.Auth.Recovery.{RecoveryCode, hash_recovery_code, draw_codes, new_recovery_codes}

module _ (sha256 : Bytes → Bytes) where
  -- A code that a person can type, and its hash.
  abbrev pub IsFresh : RecoveryCode → Type 0
  IsFresh c = (length c.plaintext ≡ 26) × All IsBase32 c.plaintext × (c.hash ≡ sha256 c.plaintext)

  fresh :
      (raw : Bytes) (xs : List ℕ)
      → raw ≡ fit 16 xs
      → IsFresh
          (record { plaintext = encode32 raw; hash = hash_recovery_code sha256 (encode32 raw) })
  unfolding hash_recovery_code
  fresh raw xs is = (
    omega (arith, length-encode32 raw, length-fit 16 xs, ap length is),
    encode32-IsBase32 raw (subst (All Byte) (sym is) (fit-Byte 16 xs)),
    refl,
  )

  draw_codes-ok :
      (n : ℕ) (s : State) (set : List RecoveryCode)
      → (draw_codes sha256 n s).0 ≡ ok set
      → (length set ≡ n) × All IsFresh set
  unfolding draw_codes
  draw_codes-ok zero s set h = ground arith
  draw_codes-ok (suc n) s set h =
      let (raw, drawn, on) = bind-ok (draw 16) _ s set h in
      let (rest, later, next) =
        bind-ok (draw_codes sha256 n) _ (draw 16 s).1 set (ap (λ r. r.0) (sym on) ∙ h) in
      let (xs, is) = draw-ok 16 s raw drawn in
      let code : RecoveryCode = record {
        plaintext = encode32 raw;
        hash = hash_recovery_code sha256 (encode32 raw);
      } in
      let whole : set ≡ code ∷ rest = ground (arith, ap (λ r. r.0) (on ∙ next)) in
      let smaller = draw_codes-ok n (draw 16 s).1 rest later in
      subst (λ cs. (length cs ≡ suc n) × All IsFresh cs) (sym whole)
        (ap suc smaller.0, (fresh raw xs is, smaller.1))

  -- NewRecoveryCodes returns ten codes, each of 26 capital letters and digits from 2 to 7, next to the
  -- hash of its own text.
  pub new_recovery_codes-IsFresh :
      (s : State) (set : List RecoveryCode)
      → (new_recovery_codes sha256 s).0 ≡ ok set
      → (length set ≡ 10) × All IsFresh set
  unfolding new_recovery_codes
  new_recovery_codes-IsFresh s set h = draw_codes-ok 10 s set h
