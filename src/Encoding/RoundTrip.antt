-- ===== src/Encoding/RoundTrip.antt =====
-- Decoding undoes encoding, and what is encoded holds no separator.
use mascotapp.Base.{
  ℕ, ◌+◌, ◌*◌, ◌/◌, ◌%◌, ◌<◌, ◌≡◌, refl, ◌≢◌, List, [], ◌∷◌, some, Bytes, Byte, All, arith,
}
use mascotapp.Encoding.{
  Alphabet, raw_url, raw_std, encode_digit, decode_digit, encode, digits, regroup, decode,
}

-- The alphabets of the source, whose last two characters are neither letters, digits nor dots.
pub data IsKnown : Alphabet → Type 0 where
  url : IsKnown raw_url
  std : IsKnown raw_std

decode_digit-encode_digit :
    (al : Alphabet) (n : ℕ) → IsKnown al → n < 64 → decode_digit al (encode_digit al n) ≡ some n
unfolding decode_digit encode_digit
decode_digit-encode_digit al n url h = ground arith
decode_digit-encode_digit al n std h = ground arith

-- A character that no separator of the source is equal to.
abbrev pub IsPrintable : ℕ → Type 0
IsPrintable c = (32 < c) × (c ≢ b'.') × (c ≢ b'$')

encode_digit-IsPrintable : (al : Alphabet) → IsKnown al → (n : ℕ) → IsPrintable (encode_digit al n)
unfolding encode_digit
encode_digit-IsPrintable al url n = ground arith
encode_digit-IsPrintable al std n = ground arith

digits-encode_digit :
    (al : Alphabet) (n : ℕ) (cs : Bytes) (ds : List ℕ)
    → IsKnown al
    → n < 64
    → digits al cs ≡ some ds
    → digits al (encode_digit al n ∷ cs) ≡ some (n ∷ ds)
unfolding digits
digits-encode_digit al n cs ds k h e =
    ground (arith, decode_digit-encode_digit al n k h, encode_digit-IsPrintable al k n)

digits-nil : (al : Alphabet) → digits al [] ≡ some []
unfolding digits
digits-nil al = refl

-- The six-bit values that the characters stand for.
abbrev Reads : Alphabet → Bytes → Bytes → Type 0
Reads al text bs = (ds : List ℕ) × (digits al text ≡ some ds) × (regroup ds ≡ some bs)

encode-Reads : (al : Alphabet) (bs : Bytes) → IsKnown al → All Byte bs → Reads al (encode al bs) bs
unfolding encode regroup
encode-Reads al [] k h = ([], digits-nil al, refl)
encode-Reads al (a ∷ []) k h = (
  a / 4 ∷ a % 4 * 16 ∷ [],
  digits-encode_digit al (a / 4) _ _ k (omega arith)
      (digits-encode_digit al (a % 4 * 16) _ _ k (omega arith) (digits-nil al)),
  ground arith,
)
encode-Reads al (a ∷ b ∷ []) k h = (
  a / 4 ∷ (a % 4 * 16 + b / 16) ∷ b % 16 * 4 ∷ [],
  digits-encode_digit al (a / 4) _ _ k (omega arith) (
      digits-encode_digit al (a % 4 * 16 + b / 16) _ _ k (omega arith)
        (digits-encode_digit al (b % 16 * 4) _ _ k (omega arith) (digits-nil al))),
  ground arith,
)
encode-Reads al (a ∷ b ∷ c ∷ rest) k h =
    let (ds, read, grouped) = encode-Reads al rest k h.1.1.1 in
    (
      a / 4 ∷ (a % 4 * 16 + b / 16) ∷ (b % 16 * 4 + c / 64) ∷ c % 64 ∷ ds,
      digits-encode_digit al (a / 4) _ _ k (omega arith) (
          digits-encode_digit al (a % 4 * 16 + b / 16) _ _ k (omega arith) (
            digits-encode_digit al (b % 16 * 4 + c / 64) _ _ k (omega arith)
              (digits-encode_digit al (c % 64) _ _ k (omega arith) read))),
      rw (grouped, regroup) (ground arith),
    )

-- DecodeString gives back the bytes that EncodeToString was given.
pub decode-encode :
    (al : Alphabet) (bs : Bytes) → IsKnown al → All Byte bs → decode al (encode al bs) ≡ some bs
unfolding decode
decode-encode al bs k h = let (ds, read, grouped) = encode-Reads al bs k h in rw read grouped

-- No character of an encoded text is a line end, a dot or a dollar sign.
pub encode-IsPrintable : (al : Alphabet) (bs : Bytes) → IsKnown al → All IsPrintable (encode al bs)
unfolding encode
encode-IsPrintable al [] k = tt
encode-IsPrintable al (a ∷ []) k =
    (encode_digit-IsPrintable al k (a / 4), (encode_digit-IsPrintable al k (a % 4 * 16), tt))
encode-IsPrintable al (a ∷ b ∷ []) k = (
  encode_digit-IsPrintable al k (a / 4),
  (
    encode_digit-IsPrintable al k (a % 4 * 16 + b / 16),
    (encode_digit-IsPrintable al k (b % 16 * 4), tt),
  ),
)
encode-IsPrintable al (a ∷ b ∷ c ∷ rest) k = (
  encode_digit-IsPrintable al k (a / 4),
  (
    encode_digit-IsPrintable al k (a % 4 * 16 + b / 16),
    (
      encode_digit-IsPrintable al k (b % 16 * 4 + c / 64),
      (encode_digit-IsPrintable al k (c % 64), encode-IsPrintable al rest k),
    ),
  ),
)
