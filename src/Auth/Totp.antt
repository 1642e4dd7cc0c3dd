-- ===== src/Auth/Totp.antt =====
-- apps/api/internal/auth/totp.go: time-based one-time passwords. HMAC-SHA1 is a parameter; an instant
-- is a number of nanoseconds since 1970.
pub mod Window
pub mod Uri
use mascotapp.Base.{
  ℕ, zero, suc, ◌+◌, ◌-◌, ◌*◌, ◌/◌, ◌%◌, ◌^◌, Bool, true, false, not, ◌&&◌, ◌||◌, List, [], ◌∷◌,
  ◌++◌, Option, none, some, Bytes, length, get_or, drop, all, leb, ◌==◌, ◌=ᵇ◌, if◌then◌else◌,
}
use mascotapp.Db.State.{M}
use mascotapp.Auth.Session.Entropy.{draw}

-- TOTPSecretLength
abbrev pub totp_secret_length : ℕ
totp_secret_length = 20

-- totpPeriod, in seconds
abbrev pub totp_period : ℕ
totp_period = 30

abbrev pub totp_digits : ℕ
totp_digits = 6

-- NewTOTPSecret
unfoldable pub new_totp_secret : M Bytes
unfolding draw
new_totp_secret = draw totp_secret_length

-- isTOTPCode
unfoldable pub is_totp_code : Bytes → Bool
is_totp_code code = length code == totp_digits && all (λ c. leb b'0' c && leb c b'9') code

-- binary.BigEndian.PutUint64, n bytes of a number
unfoldable pub big_endian : ℕ → ℕ → Bytes
big_endian zero v = []
big_endian (suc n) v = big_endian n (v / 256) ++ v % 256 ∷ []

-- binary.BigEndian.Uint32
unfoldable pub big_endian_uint32 : Bytes → Option ℕ
big_endian_uint32 (a ∷ b ∷ c ∷ d ∷ rest) = some (a * 16777216 + b * 65536 + c * 256 + d)
big_endian_uint32 _ = none

-- The number in the four bytes at an offset; a slice that is out of range panics.
unfoldable pub uint32_at : Bytes → ℕ → Option ℕ
uint32_at sum offset = big_endian_uint32 (drop offset sum)

-- pow10, in uint32
unfoldable pub pow10 : ℕ → ℕ
pow10 zero = 1
pow10 (suc n) = pow10 n * 10 % 2 ^ 32

-- fmt.Sprintf("%0*d", n, v), for a number of at most n digits
unfoldable pub decimals : ℕ → ℕ → Bytes
decimals zero v = []
decimals (suc n) v = decimals n (v / 10) ++ (v % 10 + b'0') ∷ []

-- The last byte of sum; the empty sum panics.
unfoldable pub last_byte : Bytes → Option ℕ
last_byte [] = none
last_byte (b ∷ bs) = some (get_or (b ∷ bs) (length bs) 0)

-- The truncation of RFC 4226 that totpCode applies; `none` is a panic.
unfoldable pub truncate : Bytes → Option Bytes
truncate sum = elim (last_byte sum) [
  | none ↦ none
  | some b ↦ elim (uint32_at sum (b % 16)) [
    | none ↦ none
    | some v ↦ some (decimals totp_digits (v % 2 ^ 31 % pow10 totp_digits))
  ]
]

-- The steps that VerifyTOTP looks at, as uint64: the one before the first is the largest.
abbrev pub window : ℕ → List ℕ
window step = (step + 2 ^ 64 - 1) % 2 ^ 64 ∷ step % 2 ^ 64 ∷ (step + 1) % 2 ^ 64 ∷ []

module _ (hmac_sha1 : Bytes → Bytes → Bytes) where
  -- totpCode, for a step that is a uint64.
  unfoldable pub totp_code : Bytes → ℕ → Option Bytes
  totp_code secret step = truncate (hmac_sha1 secret (big_endian 8 step))

  -- The loop of VerifyTOTP: every candidate is compared, whichever matched before.
  unfoldable pub match_any : Bytes → Bytes → List ℕ → Option Bool
  match_any secret code [] = some false
  match_any secret code (step ∷ steps) =
      let rest = match_any secret code steps in
      elim (totp_code secret step) [
        | none ↦ none
        | some candidate ↦ elim rest [
          | none ↦ none
          | some matched ↦ some ((candidate =ᵇ code) || matched)
        ]
      ]

  -- VerifyTOTP; `none` is a panic.
  unfoldable pub verify_totp : Bytes → Bytes → ℕ → Option Bool
  verify_totp secret code at =
      if not (length secret == totp_secret_length)
      then some false
      else if not (is_totp_code code)
      then some false
      else match_any secret code (window (at / 1000000000 / totp_period))
