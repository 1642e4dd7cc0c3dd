-- ===== src/Base/Texts.antt =====
-- Go strings and byte slices are lists of bytes. What the source calls of package strings.
use Prim.Native.Nat.{◌+◌, ℕ, suc, ◌-◌, ◌≤◌}
use Prim.Native.Char.{code}
use Prim.Native.String.{String}
use mathlib.Core.Path.{◌≡◌, refl}
use mathlib.Core.Logic.{◌↔◌, ◌≢◌}
use mathlib.Core.Bool.{Bool, true, false, ◌&&◌, ◌||◌}
use mathlib.Core.List.{List, [], ◌∷◌, ◌++◌, reverse, append-nil, append_assoc}
use mathlib.Core.Option
use mathlib.Core.Option.{Option, none, some}
use native.Mathlib.Omega.{arith}
use mascotapp.Base.Tests.{◌==◌, leb, if◌then◌else◌}
use mascotapp.Base.Lists.{All}

abbrev pub Bytes : Type 0
Bytes = List ℕ

-- The bytes of an ASCII text.
abbrev pub codes : String → Bytes
codes String.[] = []
codes (String.◌∷◌ c s) = code c ∷ codes s

infix 50 ◌=ᵇ◌
unfoldable pub ◌=ᵇ◌ : Bytes → Bytes → Bool
[] =ᵇ [] = true
[] =ᵇ (y ∷ ys) = false
(x ∷ xs) =ᵇ [] = false
(x ∷ xs) =ᵇ (y ∷ ys) = x == y && (xs =ᵇ ys)

pub =ᵇ_iff : (xs ys : Bytes) → ((xs =ᵇ ys) ≡ true) ↔ (xs ≡ ys)
unfolding ◌=ᵇ◌
=ᵇ_iff [] [] = ground arith
=ᵇ_iff [] (y ∷ ys) = ground arith
=ᵇ_iff (x ∷ xs) [] = ground arith
=ᵇ_iff (x ∷ xs) (y ∷ ys) = ground (arith, =ᵇ_iff xs ys)

pub =ᵇ_refl : (xs : Bytes) → (xs =ᵇ xs) ≡ true
=ᵇ_refl xs = (=ᵇ_iff xs xs).1 refl

abbrev pub is_empty : Bytes → Bool
is_empty [] = true
is_empty (x ∷ xs) = false

pub is_empty-nil : (b : Bytes) → is_empty b ≡ true → b ≡ []
is_empty-nil [] h = refl
is_empty-nil (x ∷ xs) h = ground arith

abbrev pub Byte : ℕ → Type 0
Byte b = suc b ≤ 256

-- strings.Split(s, sep) for a separator of one byte.
split_from : ℕ → Bytes → Bytes → List Bytes
split_from sep cur [] = cur ∷ []
split_from sep cur (c ∷ s) =
    let closed = split_from sep [] s in
    let longer = split_from sep (cur ++ c ∷ []) s in if c == sep then cur ∷ closed else longer

unfoldable pub split : ℕ → Bytes → List Bytes
unfolding split_from
split sep s = split_from sep [] s

split_from-append :
    (sep : ℕ) (cur xs ys : Bytes)
    → All (λ c. c ≢ sep) xs
    → split_from sep cur (xs ++ sep ∷ ys) ≡ (cur ++ xs) ∷ split_from sep [] ys
unfolding split_from
split_from-append sep cur [] ys h = ground (arith, append-nil cur)
split_from-append sep cur (x ∷ xs) ys (ne, h) =
    ground (arith, split_from-append sep (cur ++ x ∷ []) xs ys h, append_assoc cur (x ∷ []) xs)

-- A text without the separator ends at it.
pub split-append :
    (sep : ℕ) (xs ys : Bytes)
    → All (λ c. c ≢ sep) xs
    → split sep (xs ++ sep ∷ ys) ≡ xs ∷ split sep ys
unfolding split
split-append sep xs ys h = split_from-append sep [] xs ys h

split_from-join :
    (sep : ℕ) (cur xs ys : Bytes)
    → split_from sep cur (xs ++ sep ∷ ys) ≡ split_from sep cur xs ++ split_from sep [] ys
unfolding split_from
split_from-join sep cur [] ys = ground arith
split_from-join sep cur (x ∷ xs) ys =
    ground (arith, split_from-join sep [] xs ys, split_from-join sep (cur ++ x ∷ []) xs ys)

-- Two texts with the separator between them have the parts of both.
pub split-join :
    (sep : ℕ) (xs ys : Bytes) → split sep (xs ++ sep ∷ ys) ≡ split sep xs ++ split sep ys
unfolding split
split-join sep xs ys = split_from-join sep [] xs ys

split_from_free :
    (sep : ℕ) (cur xs : Bytes) → All (λ c. c ≢ sep) xs → split_from sep cur xs ≡ (cur ++ xs) ∷ []
unfolding split_from
split_from_free sep cur [] h = rw (append-nil cur)
split_from_free sep cur (x ∷ xs) (ne, h) =
    ground (arith, split_from_free sep (cur ++ x ∷ []) xs h, append_assoc cur (x ∷ []) xs)

-- A text without the separator is one part.
pub split_free : (sep : ℕ) (xs : Bytes) → All (λ c. c ≢ sep) xs → split sep xs ≡ xs ∷ []
unfolding split
split_free sep xs h = split_from_free sep [] xs h

-- unicode.IsSpace on one byte of an ASCII text.
unfoldable pub is_space : ℕ → Bool
is_space c = (leb 9 c && leb c 13) || c == 32

unfoldable pub trim_left : Bytes → Bytes
unfolding is_space
trim_left [] = []
trim_left (c ∷ s) = elim (is_space c) [ true ↦ trim_left s | false ↦ c ∷ s ]

-- strings.TrimSpace on an ASCII text.
unfoldable pub trim_space : Bytes → Bytes
unfolding trim_left
trim_space s = reverse (trim_left (reverse (trim_left s)))

-- strings.ToUpper on one byte of an ASCII text.
unfoldable pub to_upper : ℕ → ℕ
to_upper c = if leb b'a' c && leb c b'z' then c - 32 else c

-- The lower case of a letter of ASCII.
unfoldable pub to_lower : ℕ → ℕ
to_lower c = if leb b'A' c && leb c b'Z' then c + 32 else c

-- strings.Cut for a separator of one byte: the text before and after the first one.
unfoldable pub cut : ℕ → Bytes → Option (Bytes × Bytes)
cut sep [] = none
cut sep (c ∷ s) =
    let later = Option.map (λ p. (c ∷ p.0, p.1)) (cut sep s) in
    if c == sep then some ([], s) else later

-- What follows a prefix, if the text has it.
unfoldable pub strip_prefix : Bytes → Bytes → Option Bytes
strip_prefix [] text = some text
strip_prefix (x ∷ xs) [] = none
strip_prefix (x ∷ xs) (c ∷ cs) = let rest = strip_prefix xs cs in if x == c then rest else none

pub strip_prefix-append : (xs ys : Bytes) → strip_prefix xs (xs ++ ys) ≡ some ys
unfolding strip_prefix
strip_prefix-append [] ys = refl
strip_prefix-append (x ∷ xs) ys = ground (arith, strip_prefix-append xs ys)

pub strip_prefix-some : (xs text ys : Bytes) → strip_prefix xs text ≡ some ys → text ≡ xs ++ ys
unfolding strip_prefix
strip_prefix-some [] text ys h = ground arith
strip_prefix-some (x ∷ xs) [] ys h = ground arith
strip_prefix-some (x ∷ xs) (c ∷ cs) ys h = ground (arith, strip_prefix-some xs cs ys)
