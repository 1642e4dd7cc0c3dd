-- ===== src/Scripts/Text.antt =====
-- What the scripts call of package strings besides Base.
use mascotapp.Base.{
  ℕ, ◌≡◌, refl, Bool, true, false, ◌||◌, List, [], ◌∷◌, ◌++◌, Option, none, some, Bytes, ◌==◌,
  is_empty, is_space, strip_prefix, if◌then◌else◌, is_some, arith,
}
use mathlib.Core.List.{reverse, reverse-append, reverse-reverse, reverse-cons}

-- strings.HasPrefix
unfoldable pub has_prefix : Bytes → Bytes → Bool
unfolding strip_prefix
has_prefix prefix s = is_some (strip_prefix prefix s)

-- strings.TrimPrefix
unfoldable pub trim_prefix : Bytes → Bytes → Bytes
unfolding strip_prefix
trim_prefix prefix s = elim (strip_prefix prefix s) [ none ↦ s | some rest ↦ rest ]

-- strings.TrimLeft for the characters that pass a test.
unfoldable pub trim_left_of : (ℕ → Bool) → Bytes → Bytes
trim_left_of cut [] = []
trim_left_of cut (c ∷ s) = elim (cut c) [ true ↦ trim_left_of cut s | false ↦ c ∷ s ]

-- strings.TrimRight
unfoldable pub trim_right_of : (ℕ → Bool) → Bytes → Bytes
unfolding trim_left_of
trim_right_of cut s = reverse (trim_left_of cut (reverse s))

-- The text before a last character, if it ends in that: strings.HasSuffix and strings.TrimSuffix.
unfoldable pub strip_last : ℕ → Bytes → Option Bytes
strip_last last s = elim (reverse s) [
  | [] ↦ none
  | c ∷ r ↦ if c == last then some (reverse r) else none
]

-- strings.Fields, with the field that is being read.
unfoldable pub fields_from : Bytes → Bytes → List Bytes
unfolding is_space
fields_from cur [] = if is_empty cur then [] else cur ∷ []
fields_from cur (c ∷ s) =
    let closed = fields_from [] s in
    let longer = fields_from (cur ++ c ∷ []) s in
    elim (is_space c) [ true ↦ if is_empty cur then closed else cur ∷ closed | false ↦ longer ]

-- strings.Fields
unfoldable pub fields : Bytes → List Bytes
unfolding fields_from
fields s = fields_from [] s

-- strings.Split for a separator of two equal characters.
unfoldable pub split_pair_from : ℕ → Bytes → Bytes → List Bytes
split_pair_from sep cur [] = cur ∷ []
split_pair_from sep cur (c ∷ []) = (cur ++ c ∷ []) ∷ []
split_pair_from sep cur (c ∷ d ∷ s) =
    let closed = split_pair_from sep [] s in
    let longer = split_pair_from sep (cur ++ c ∷ []) (d ∷ s) in
    elim (c == sep) [ true ↦ if d == sep then cur ∷ closed else longer | false ↦ longer ]

unfoldable pub split_pair : ℕ → Bytes → List Bytes
unfolding split_pair_from
split_pair sep s = split_pair_from sep [] s

-- The class \s of package regexp.
unfoldable pub is_white : ℕ → Bool
is_white c = c == 9 || c == 10 || c == 12 || c == 13 || c == 32

-- whitespaceRe.ReplaceAllString(text, " "): `inside` says that the last character was white space.
unfoldable pub collapse : Bool → Bytes → Bytes
unfolding is_white
collapse inside [] = []
collapse inside (c ∷ s) = elim (is_white c) [
  | true ↦ let rest = collapse true s in if inside then rest else 32 ∷ rest
  | false ↦ c ∷ collapse false s
]

-- " ,.;:"
abbrev pub is_trailing : ℕ → Bool
is_trailing c = c == 32 || c == 44 || c == 46 || c == 59 || c == 58

-- A text whose last character is not cut is as long as before.
pub trim_right_of-snoc :
    (cut : ℕ → Bool) (s : Bytes) (c : ℕ)
    → cut c ≡ false
    → trim_right_of cut (s ++ c ∷ []) ≡ s ++ c ∷ []
unfolding trim_right_of trim_left_of
trim_right_of-snoc cut s c keeps =
    rw (reverse-append s (c ∷ []), keeps, reverse-cons, reverse-reverse) refl

pub strip_last-snoc :
    (last : ℕ) (s : Bytes) (c : ℕ)
    → strip_last last (s ++ c ∷ []) ≡ (if c == last then some s else none)
unfolding strip_last
strip_last-snoc last s c = ground (arith, reverse-append s (c ∷ []), reverse-reverse s)
