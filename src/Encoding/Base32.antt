-- ===== src/Encoding/Base32.antt =====
-- Package encoding/base32 as the source uses it: StdEncoding without padding.
use mascotapp.Base.{
  ℕ, suc, ◌+◌, ◌-◌, ◌*◌, ◌/◌, ◌%◌, ◌≡◌, ◌⊎◌, [], ◌∷◌, Bytes, Byte, ltb, ◌≤◌, if◌then◌else◌, length,
  All, arith,
}

unfoldable pub encode_digit32 : ℕ → ℕ
encode_digit32 n = if ltb n 26 then n + b'A' else n - 26 + b'2'

-- Encoding.EncodeToString
unfoldable pub encode32 : Bytes → Bytes
unfolding encode_digit32
encode32 [] = []
encode32 (a ∷ []) = encode_digit32 (a / 8) ∷ encode_digit32 (a % 8 * 4) ∷ []
encode32 (a ∷ b ∷ []) =
    encode_digit32 (a / 8)
    ∷ encode_digit32 (a % 8 * 4 + b / 64)
    ∷ encode_digit32 (b % 64 / 2)
    ∷ encode_digit32 (b % 2 * 16)
    ∷ []
encode32 (a ∷ b ∷ c ∷ []) =
    encode_digit32 (a / 8)
    ∷ encode_digit32 (a % 8 * 4 + b / 64)
    ∷ encode_digit32 (b % 64 / 2)
    ∷ encode_digit32 (b % 2 * 16 + c / 16)
    ∷ encode_digit32 (c % 16 * 2)
    ∷ []
encode32 (a ∷ b ∷ c ∷ d ∷ []) =
    encode_digit32 (a / 8)
    ∷ encode_digit32 (a % 8 * 4 + b / 64)
    ∷ encode_digit32 (b % 64 / 2)
    ∷ encode_digit32 (b % 2 * 16 + c / 16)
    ∷ encode_digit32 (c % 16 * 2 + d / 128)
    ∷ encode_digit32 (d % 128 / 4)
    ∷ encode_digit32 (d % 4 * 8)
    ∷ []
encode32 (a ∷ b ∷ c ∷ d ∷ e ∷ rest) =
    encode_digit32 (a / 8)
    ∷ encode_digit32 (a % 8 * 4 + b / 64)
    ∷ encode_digit32 (b % 64 / 2)
    ∷ encode_digit32 (b % 2 * 16 + c / 16)
    ∷ encode_digit32 (c % 16 * 2 + d / 128)
    ∷ encode_digit32 (d % 128 / 4)
    ∷ encode_digit32 (d % 4 * 8 + e / 32)
    ∷ encode_digit32 (e % 32)
    ∷ encode32 rest

-- A capital letter, or a digit from 2 to 7.
abbrev pub IsBase32 : ℕ → Type 0
IsBase32 c = ((b'A' ≤ c) × (c ≤ b'Z')) ⊎ ((b'2' ≤ c) × (c ≤ b'7'))

fits32 : (n : ℕ) → suc n ≤ 32 → IsBase32 (encode_digit32 n)
unfolding encode_digit32
fits32 n h = ground arith

pub encode32-IsBase32 : (bs : Bytes) → All Byte bs → All IsBase32 (encode32 bs)
unfolding encode32
encode32-IsBase32 [] h = tt
encode32-IsBase32 (a ∷ []) h = (fits32 _ (omega arith), (fits32 _ (omega arith), tt))
encode32-IsBase32 (a ∷ b ∷ []) h = (
  fits32 _ (omega arith),
  (fits32 _ (omega arith), (fits32 _ (omega arith), (fits32 _ (omega arith), tt))),
)
encode32-IsBase32 (a ∷ b ∷ c ∷ []) h = (
  fits32 _ (omega arith),
  (
    fits32 _ (omega arith),
    (fits32 _ (omega arith), (fits32 _ (omega arith), (fits32 _ (omega arith), tt))),
  ),
)
encode32-IsBase32 (a ∷ b ∷ c ∷ d ∷ []) h = (
  fits32 _ (omega arith),
  (
    fits32 _ (omega arith),
    (
      fits32 _ (omega arith),
      (
        fits32 _ (omega arith),
        (fits32 _ (omega arith), (fits32 _ (omega arith), (fits32 _ (omega arith), tt))),
      ),
    ),
  ),
)
encode32-IsBase32 (a ∷ b ∷ c ∷ d ∷ e ∷ rest) (ha, (hb, (hc, (hd, (he, h))))) = (
  fits32 _ (omega arith),
  (
    fits32 _ (omega arith),
    (
      fits32 _ (omega arith),
      (
        fits32 _ (omega arith),
        (
          fits32 _ (omega arith),
          (
            fits32 _ (omega arith),
            (fits32 _ (omega arith), (fits32 _ (omega arith), encode32-IsBase32 rest h)),
          ),
        ),
      ),
    ),
  ),
)

-- Eight characters for each five bytes, and as many as the rest needs.
pub length-encode32 : (bs : Bytes) → length (encode32 bs) ≡ (length bs * 8 + 4) / 5
unfolding encode32
length-encode32 [] = omega arith
length-encode32 (a ∷ []) = omega arith
length-encode32 (a ∷ b ∷ []) = omega arith
length-encode32 (a ∷ b ∷ c ∷ []) = omega arith
length-encode32 (a ∷ b ∷ c ∷ d ∷ []) = omega arith
length-encode32 (a ∷ b ∷ c ∷ d ∷ e ∷ rest) = omega (arith, length-encode32 rest)
