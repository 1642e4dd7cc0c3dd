-- ===== src/Scripts/Kept.antt =====
-- Trimmed and shortened texts have characters of the text only, and get no longer.
use mascotapp.Base.{
  ℕ, ◌≤◌, ◌≡◌, inl, inr, refl, sym, subst, Bool, true, false, [], ◌∷◌, Bytes, All, All-append, zero,
  suc, length, length-append, is_space, take, trim_space, trim_left, if◌then◌else◌, Bool-cases,
  arith,
}
use mathlib.Core.List.{reverse, reverse-cons}
use mascotapp.Scripts.Text.{trim_left_of, trim_right_of, is_white, collapse}

length-reverse : (s : Bytes) → length (reverse s) ≡ length s
length-reverse [] = refl
length-reverse (c ∷ s) =
    subst (λ r. length r ≡ suc (length s)) (sym (reverse-cons c s))
      (omega (arith, length-append (reverse s) (c ∷ []), length-reverse s))

trim_left_of-le : (cut : ℕ → Bool) (s : Bytes) → length (trim_left_of cut s) ≤ length s
unfolding trim_left_of
trim_left_of-le cut [] = omega arith
trim_left_of-le cut (c ∷ s) = ground (arith, trim_left_of-le cut s)

pub trim_right_of-le : (cut : ℕ → Bool) (s : Bytes) → length (trim_right_of cut s) ≤ length s
unfolding trim_right_of
trim_right_of-le cut s = omega (
  arith,
  length-reverse (trim_left_of cut (reverse s)),
  trim_left_of-le cut (reverse s),
  length-reverse s,
)

pub trim_left-space : (c : ℕ) (s : Bytes) → is_space c ≡ true → trim_left (c ∷ s) ≡ trim_left s
unfolding trim_left
trim_left-space c s h = ground arith

pub trim_left-kept : (c : ℕ) (s : Bytes) → is_space c ≡ false → trim_left (c ∷ s) ≡ c ∷ s
unfolding trim_left
trim_left-kept c s h = ground arith

pub collapse-kept :
    (inside : Bool) (c : ℕ) (s : Bytes)
    → is_white c ≡ false
    → collapse inside (c ∷ s) ≡ c ∷ collapse false s
unfolding collapse
collapse-kept inside c s h = ground arith

collapse-space :
    (inside : Bool) (c : ℕ) (s : Bytes)
    → is_white c ≡ true
    → collapse inside (c ∷ s) ≡ (if inside then collapse true s else 32 ∷ collapse true s)
unfolding collapse
collapse-space inside c s h = ground arith

module _ (P : ℕ → Type 0) where
  All-reverse : (s : Bytes) → All P s → All P (reverse s)
  All-reverse [] h = tt
  All-reverse (c ∷ s) (p, h) =
      subst (All P) (sym (reverse-cons c s))
        (All-append P (reverse s) (c ∷ []) (All-reverse s h) (p, tt))

  trim_left_of-All : (cut : ℕ → Bool) (s : Bytes) → All P s → All P (trim_left_of cut s)
  unfolding trim_left_of
  trim_left_of-All cut [] h = h
  trim_left_of-All cut (c ∷ s) (p, h) = elim (Bool-cases (cut c)) [
    | inl gone ↦ rw (gone, trim_left_of) (trim_left_of-All cut s h)
    | inr kept ↦ rw (kept, trim_left_of) (p, h)
  ]

  pub trim_right_of-All : (cut : ℕ → Bool) (s : Bytes) → All P s → All P (trim_right_of cut s)
  unfolding trim_right_of
  trim_right_of-All cut s h = All-reverse _ (trim_left_of-All cut (reverse s) (All-reverse s h))

  trim_left-All : (s : Bytes) → All P s → All P (trim_left s)
  trim_left-All [] h = unfold trim_left in tt
  trim_left-All (c ∷ s) (p, h) = elim (Bool-cases (is_space c)) [
    | inl gone ↦ subst (All P) (sym (trim_left-space c s gone)) (trim_left-All s h)
    | inr kept ↦ subst (All P) (sym (trim_left-kept c s kept)) (p, h)
  ]

  pub trim_space-All : (s : Bytes) → All P s → All P (trim_space s)
  unfolding trim_space
  trim_space-All s h = All-reverse _ (trim_left-All _ (All-reverse _ (trim_left-All s h)))

  -- The characters of a text in which every run of white space has become one space.
  pub collapse-All :
      P 32
      → (inside : Bool) (s : Bytes) → All (λ c. is_white c ≡ false → P c) s
      → All P (collapse inside s)
  collapse-All blank inside [] h = unfold collapse in tt
  collapse-All blank inside (c ∷ s) (p, h) = elim (Bool-cases (is_white c)) [
    | inl space ↦
        subst (All P) (sym (collapse-space inside c s space))
          (spaced inside (collapse true s) (collapse-All blank true s h))
    | inr kept ↦
        subst (All P) (sym (collapse-kept inside c s kept)) (p kept, collapse-All blank false s h)
  ]
    where
      spaced : (b : Bool) (rest : Bytes) → All P rest → All P (if b then rest else 32 ∷ rest)
      spaced true rest h = h
      spaced false rest h = (blank, h)

  pub take-All : (n : ℕ) (s : Bytes) → All P s → All P (take n s)
  take-All zero s h = tt
  take-All (suc n) [] h = tt
  take-All (suc n) (c ∷ s) (p, h) = (p, take-All n s h)
