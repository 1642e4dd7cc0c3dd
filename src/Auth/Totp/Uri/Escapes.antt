-- ===== src/Auth/Totp/Uri/Escapes.antt =====
-- Reading back what package net/url escapes.
use mascotapp.Base.{
  ℕ, ◌+◌, ◌-◌, ◌*◌, ◌/◌, ◌%◌, ◌<◌, ◌≡◌, ◌≢◌, ◌⊎◌, ◌∙◌, ap, refl, inl, inr, Bool, true, false, ◌&&◌,
  [], ◌∷◌, ◌++◌, Bytes, Byte, ◌==◌, leb, All, All-append, if◌then◌else◌, Bool-cases, arith,
}
use mascotapp.Auth.Totp.Uri.{hex_digit, escape_byte, escape}

abbrev pub hex_value : ℕ → ℕ
hex_value d = if leb d b'9' then d - b'0' else d - b'A' + 10

-- A reader of escaped text, with what it has read of an escape, that may read '+' as a space.
unfoldable pub unescape_from : Bool → Bytes → Bytes → Bytes
unescape_from plus pending [] = []
unescape_from plus [] (c ∷ s) = elim (c == b'%') [
  | true ↦ unescape_from plus (c ∷ []) s
  | false ↦ (if plus && c == b'+' then 32 else c) ∷ unescape_from plus [] s
]
unescape_from plus (x ∷ []) (c ∷ s) = unescape_from plus (x ∷ c ∷ []) s
unescape_from plus (x ∷ h ∷ rest) (c ∷ s) =
    (hex_value h * 16 + hex_value c) ∷ unescape_from plus [] s

plain_lem :
    (plus : Bool) (c : ℕ) (s : Bytes)
    → c ≢ b'%'
    → unescape_from plus [] (c ∷ s)
      ≡ (if plus && c == b'+' then 32 else c) ∷ unescape_from plus [] s
unfolding unescape_from
plain_lem plus c s h = ground (arith, h)

hex : (n : ℕ) → n < 16 → hex_value (hex_digit n) ≡ n
unfolding hex_digit
hex n h = ground arith

module _ (keeps : ℕ → Bool) (plus : Bool)
    (as_it_is : (c : ℕ) → keeps c ≡ true → (c ≢ b'%') × ((c ≢ b'+') ⊎ (plus ≡ false))) where
  escape_byte_lem :
      (c : ℕ) (s : Bytes)
      → Byte c
      → unescape_from plus [] (escape_byte keeps plus c ++ s) ≡ c ∷ unescape_from plus [] s
  unfolding escape_byte unescape_from
  escape_byte_lem c s byte = elim (Bool-cases (plus && c == 32)) [
    | inl space ↦ rw space (ground (arith, space, plain_lem plus b'+' s))
    | inr other ↦ elim (Bool-cases (keeps c)) [
      | inl kept ↦ rw (other, kept) (ground (arith, plain_lem plus c s, as_it_is c kept))
      | inr gone ↦
          rw (other, gone)
            (ap (λ n. n ∷ unescape_from plus [] s)
              (omega (arith, byte, hex (c / 16) (omega (arith, byte)), hex (c % 16) (omega arith))))
    ]
  ]

  pub unescape-escape : (s : Bytes) → All Byte s → unescape_from plus [] (escape keeps plus s) ≡ s
  unfolding escape unescape_from
  unescape-escape [] h = refl
  unescape-escape (c ∷ s) (byte, h) =
      escape_byte_lem c (escape keeps plus s) byte ∙ ap (λ r. c ∷ r) (unescape-escape s h)

  pub escape-All :
      (P : ℕ → Type 0)
      → P b'+'
      → P b'%'
      → ((n : ℕ) → n < 16 → P (hex_digit n))
      → ((c : ℕ) → keeps c ≡ true → P c)
      → (s : Bytes) → All Byte s
      → All P (escape keeps plus s)
  unfolding escape escape_byte
  escape-All P p q hexes own [] h = tt
  escape-All P p q hexes own (c ∷ s) (byte, h) =
      All-append P (escape_byte keeps plus c) (escape keeps plus s)
        (one (plus && c == 32) (keeps c) refl) (escape-All P p q hexes own s h)
    where
      one :
          (space kept : Bool)
          → keeps c ≡ kept
          → All P (
              if space
              then b'+' ∷ []
              else if kept
              then c ∷ []
              else b'%' ∷ hex_digit (c / 16) ∷ hex_digit (c % 16) ∷ [])
      one true kept e = (p, tt)
      one false true e = (own c e, tt)
      one false false e =
          (q, (hexes (c / 16) (omega (arith, byte)), (hexes (c % 16) (omega arith), tt)))
