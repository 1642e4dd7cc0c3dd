-- ===== src/Encoding.antt =====
-- Package encoding/base64 as the source uses it: RawURLEncoding and RawStdEncoding, which pad
-- nothing. DecodeString skips line ends, refuses every byte outside the alphabet, and ignores the
-- unused bits of the last character.
pub mod RoundTrip
pub mod Base32
use mascotapp.Base.{
  ℕ, suc, ◌+◌, ◌-◌, ◌*◌, ◌/◌, ◌%◌, Bool, true, false, ◌&&◌, ◌||◌, List, [], ◌∷◌, ◌++◌, Option, none,
  some, Bytes, leb, ltb, ◌==◌, if◌then◌else◌,
}

-- The two characters in which the alphabets differ.
pub record Alphabet : Type 0 where
  pub char62 : ℕ
  pub char63 : ℕ

abbrev pub raw_url : Alphabet
raw_url = record { char62 = b'-'; char63 = b'_' }

abbrev pub raw_std : Alphabet
raw_std = record { char62 = b'+'; char63 = b'/' }

unfoldable pub encode_digit : Alphabet → ℕ → ℕ
encode_digit alphabet n =
    if ltb n 26
    then n + b'A'
    else if ltb n 52
    then n - 26 + b'a'
    else if ltb n 62
    then n - 52 + b'0'
    else if n == 62
    then alphabet.char62
    else alphabet.char63

unfoldable pub decode_digit : Alphabet → ℕ → Option ℕ
decode_digit alphabet c =
    if leb b'A' c && leb c b'Z'
    then some (c - b'A')
    else if leb b'a' c && leb c b'z'
    then some (c - b'a' + 26)
    else if leb b'0' c && leb c b'9'
    then some (c - b'0' + 52)
    else if c == alphabet.char62
    then some 62
    else if c == alphabet.char63
    then some 63
    else none

-- Encoding.EncodeToString
unfoldable pub encode : Alphabet → Bytes → Bytes
unfolding encode_digit
encode al [] = []
encode al (a ∷ []) = encode_digit al (a / 4) ∷ encode_digit al (a % 4 * 16) ∷ []
encode al (a ∷ b ∷ []) =
    encode_digit al (a / 4)
    ∷ encode_digit al (a % 4 * 16 + b / 16)
    ∷ encode_digit al (b % 16 * 4)
    ∷ []
encode al (a ∷ b ∷ c ∷ rest) =
    encode_digit al (a / 4)
    ∷ encode_digit al (a % 4 * 16 + b / 16)
    ∷ encode_digit al (b % 16 * 4 + c / 64)
    ∷ encode_digit al (c % 64)
    ∷ encode al rest

infixl 5 ◌>>=◌
abbrev pub ◌>>=◌ {ℓ κ} : {A : Type ℓ} {B : Type κ} → Option A → (A → Option B) → Option B
none >>= k = none
some a >>= k = k a

-- The values of the characters, line ends skipped.
unfoldable pub digits : Alphabet → Bytes → Option (List ℕ)
unfolding decode_digit
digits al [] = some []
digits al (c ∷ cs) =
    let rest = digits al cs in
    if c == 10 || c == 13 then rest else (do d ← decode_digit al c; ds ← rest; some (d ∷ ds))

-- The bytes of the values, four at a time; one character alone is an error.
unfoldable pub regroup : List ℕ → Option Bytes
regroup [] = some []
regroup (a ∷ []) = none
regroup (a ∷ b ∷ []) = some ((a * 4 + b / 16) ∷ [])
regroup (a ∷ b ∷ c ∷ []) = some ((a * 4 + b / 16) ∷ (b % 16 * 16 + c / 4) ∷ [])
regroup (a ∷ b ∷ c ∷ d ∷ rest) = do
  bytes ← regroup rest
  some ((a * 4 + b / 16) ∷ (b % 16 * 16 + c / 4) ∷ (c % 4 * 64 + d) ∷ bytes)

-- Encoding.DecodeString
unfoldable pub decode : Alphabet → Bytes → Option Bytes
unfolding digits regroup
decode al text = do ds ← digits al text; regroup ds
