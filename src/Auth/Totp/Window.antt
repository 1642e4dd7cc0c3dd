-- ===== src/Auth/Totp/Window.antt =====
-- What VerifyTOTP of auth/totp.go accepts.
use mathlib.Core.List.{Memᴰ}
use mascotapp.Base.{
  ℕ, zero, suc, ◌+◌, ◌*◌, ◌-◌, ◌/◌, ◌%◌, ◌^◌, ◌≤◌, ◌≡◌, ◌⊎◌, ◌↔◌, ◌∙◌, refl, ap, inl, inr, Bool,
  true, false, ◌&&◌, List, [], ◌∷◌, ◌++◌, some, Bytes, length, length-append, length-drop, get_or,
  drop, all, leb, ◌==◌, ◌=ᵇ◌, =ᵇ_iff, Bool-cases, arith,
}
use mascotapp.Auth.Totp.{
  is_totp_code, big_endian, big_endian_uint32, uint32_at, pow10, decimals, last_byte, truncate,
  totp_code, window, match_any, verify_totp,
}

all-append : (p : ℕ → Bool) (xs ys : Bytes) → all p (xs ++ ys) ≡ (all p xs && all p ys)
all-append p [] ys = refl
all-append p (x ∷ xs) ys = ground (arith, all-append p xs ys)

abbrev is_digit : ℕ → Bool
is_digit c = leb b'0' c && leb c b'9'

decimals-digits : (n v : ℕ) → (length (decimals n v) ≡ n) × (all is_digit (decimals n v) ≡ true)
unfolding decimals
decimals-digits zero v = (refl, refl)
decimals-digits (suc n) v = (
  omega (
    arith,
    length-append (decimals n (v / 10)) ((v % 10 + b'0') ∷ []),
    (decimals-digits n (v / 10)).0,
  ),
  ground (
    arith,
    all-append is_digit (decimals n (v / 10)) ((v % 10 + b'0') ∷ []),
    (decimals-digits n (v / 10)).1,
  ),
)

four : (xs : Bytes) → 4 ≤ length xs → (v : ℕ) × (big_endian_uint32 xs ≡ some v)
unfolding big_endian_uint32
four [] h = ground arith
four (a ∷ []) h = ground arith
four (a ∷ b ∷ []) h = ground arith
four (a ∷ b ∷ c ∷ []) h = ground arith
four (a ∷ b ∷ c ∷ d ∷ rest) h = (a * 16777216 + b * 65536 + c * 256 + d, refl)

six_digits : (v : ℕ) → is_totp_code (decimals 6 v) ≡ true
unfolding is_totp_code
six_digits v = ground (arith, decimals-digits 6 v)

last_of : (sum : Bytes) → 1 ≤ length sum → (b : ℕ) × (last_byte sum ≡ some b)
unfolding last_byte
last_of [] h = ground arith
last_of (b ∷ bs) h = (get_or (b ∷ bs) (length bs) 0, refl)

-- A sum of twenty bytes holds four bytes at every offset below sixteen.
truncate-20 :
    (sum : Bytes)
    → length sum ≡ 20
    → (code : Bytes) × (truncate sum ≡ some code) × (is_totp_code code ≡ true)
unfolding truncate uint32_at
truncate-20 sum twenty =
    let (b, last) = last_of sum (omega (arith, twenty)) in
    let (v, reads) = four (drop (b % 16) sum) (omega (arith, twenty, length-drop (b % 16) sum)) in
    (
      decimals 6 (v % 2 ^ 31 % pow10 6),
      ground (arith, last, reads),
      six_digits (v % 2 ^ 31 % pow10 6),
    )

-- A step, the one before and the one after, as uint64.
abbrev pub IsNear : ℕ → ℕ → Type 0
IsNear n step =
    (step ≡ (n + 2 ^ 64 - 1) % 2 ^ 64) ⊎ ((step ≡ n % 2 ^ 64) ⊎ (step ≡ (n + 1) % 2 ^ 64))

module _ (hmac_sha1 : Bytes → Bytes → Bytes)
    (twenty : (k m : Bytes) → length (hmac_sha1 k m) ≡ 20) where
  -- totpCode returns six digits, and never panics, for a sum of twenty bytes.
  pub totp_code-returns :
      (secret : Bytes) (step : ℕ)
      → (code : Bytes) × (totp_code hmac_sha1 secret step ≡ some code) × (is_totp_code code ≡ true)
  unfolding totp_code
  totp_code-returns secret step = truncate-20 (hmac_sha1 secret (big_endian 8 step)) (twenty _ _)

  -- A step whose code is the submitted one.
  abbrev pub Matches : Bytes → Bytes → List ℕ → Type 0
  Matches secret code steps =
      (step : ℕ) × Memᴰ step steps × (totp_code hmac_sha1 secret step ≡ some code)

  other :
      (secret code : Bytes) (step : ℕ) (steps : List ℕ) (candidate : Bytes)
      → totp_code hmac_sha1 secret step ≡ some candidate
      → (candidate =ᵇ code) ≡ false
      → (Matches secret code steps → ⊥)
      → Matches secret code (step ∷ steps)
      → ⊥
  other secret code step steps candidate has differs missing (at, Memᴰ.head e, matches) =
      grind (arith, ap (totp_code hmac_sha1 secret) e, =ᵇ_iff candidate code)
  other secret code step steps candidate has differs missing (at, Memᴰ.tail m, matches) =
      missing (at, m, matches)

  match_any-cases :
      (secret code : Bytes) (steps : List ℕ)
      → ((match_any hmac_sha1 secret code steps ≡ some true) × Matches secret code steps)
        ⊎ ((match_any hmac_sha1 secret code steps ≡ some false) × (Matches secret code steps → ⊥))
  unfolding match_any
  match_any-cases secret code [] = inr (refl, λ m. elim m.1 [ ])
  match_any-cases secret code (step ∷ steps) =
      let (candidate, has, _) = totp_code-returns secret step in
      elim (Bool-cases (candidate =ᵇ code)) [
        | inl same ↦
            let here : Matches secret code (step ∷ steps) =
              (step, Memᴰ.head refl, has ∙ ap some ((=ᵇ_iff candidate code).0 same)) in
            elim (match_any-cases secret code steps) [
              | inl found ↦ inl (ground arith, here)
              | inr missing ↦ inl (ground arith, here)
            ]
        | inr differs ↦ elim (match_any-cases secret code steps) [
          | inl found ↦ inl (ground arith, (found.1.0, Memᴰ.tail found.1.1, found.1.2))
          | inr missing ↦
              inr (ground arith, other secret code step steps candidate has differs missing.1)
        ]
      ]

  -- A near step whose code is the submitted one.
  abbrev pub MatchesNear : Bytes → Bytes → ℕ → Type 0
  MatchesNear secret code n =
      (step : ℕ) × IsNear n step × (totp_code hmac_sha1 secret step ≡ some code)

  near : (secret code : Bytes) (n : ℕ) → Matches secret code (window n) ↔ MatchesNear secret code n
  near secret code n = ((λ h. (h.0, from h.0 h.1, h.2)), (λ h. (h.0, onto h.0 h.1, h.2)))
    where
      from : (step : ℕ) → Memᴰ step (window n) → IsNear n step
      from step (Memᴰ.head e) = inl e
      from step (Memᴰ.tail (Memᴰ.head e)) = inr (inl e)
      from step (Memᴰ.tail (Memᴰ.tail (Memᴰ.head e))) = inr (inr e)
      from step (Memᴰ.tail (Memᴰ.tail (Memᴰ.tail none_))) = elim none_ [ ]

      onto : (step : ℕ) → IsNear n step → Memᴰ step (window n)
      onto step (inl e) = Memᴰ.head e
      onto step (inr (inl e)) = Memᴰ.tail (Memᴰ.head e)
      onto step (inr (inr e)) = Memᴰ.tail (Memᴰ.tail (Memᴰ.head e))

  -- VerifyTOTP never panics, for an HMAC of twenty bytes. It accepts exactly the codes that totpCode
  -- gives for the step of the instant, the one before or the one after, under a secret of twenty
  -- bytes.
  pub verify_totp-accepts :
      (secret code : Bytes) (at : ℕ)
      → ((b : Bool) × (verify_totp hmac_sha1 secret code at ≡ some b))
        × ((verify_totp hmac_sha1 secret code at ≡ some true)
            ↔ ((length secret ≡ 20) × MatchesNear secret code (at / 1000000000 / 30)))
  unfolding verify_totp
  verify_totp-accepts secret code at =
      let steps = window (at / 1000000000 / 30) in
      let around = near secret code (at / 1000000000 / 30) in
      elim (Bool-cases (length secret == 20)) [
        | inr wrong ↦ ((false, ground arith), ((λ h. ground arith), (λ h. ground arith)))
        | inl right ↦ elim (Bool-cases (is_totp_code code)) [
          | inr garbage ↦ (
            (false, ground arith),
            (
              (λ h. ground arith),
              (λ h.
                  let (made, has, good) = totp_code-returns secret h.1.0 in
                  grind (arith, h.1.2, has, good, garbage)),
            ),
          )
          | inl fits ↦ elim (match_any-cases secret code steps) [
            | inl found ↦ (
              (true, ground arith),
              ((λ h. (ground arith, around.0 found.1)), (λ h. ground arith)),
            )
            | inr missing ↦ (
              (false, ground arith),
              ((λ h. ground arith), (λ h. elim (missing.1 (around.1 h.1)) [ ])),
            )
          ]
        ]
      ]
