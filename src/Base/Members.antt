-- ===== src/Base/Members.antt =====
-- Membership in a list of texts, and lists without repetition.
use mathlib.Core.Path.{◌≡◌, refl, sym, subst}
use mathlib.Core.Logic.{◌≢◌, ◌↔◌, ◌⊎◌, inl, inr}
use mathlib.Core.Bool.{Bool, true, false, ◌||◌}
use mathlib.Core.List.{List, [], ◌∷◌, ◌++◌}
use native.Mathlib.Omega.{arith}
use mascotapp.Base.Tests.{Bool-cases}
use mascotapp.Base.Lists.{All}
use mascotapp.Base.Texts.{Bytes, ◌=ᵇ◌, =ᵇ_iff}

abbrev pub In : Bytes → List Bytes → Type 0
In a [] = ⊥
In a (x ∷ xs) = (a ≡ x) ⊎ In a xs

abbrev pub Distinct : List Bytes → Type 0
Distinct [] = Unit
Distinct (x ∷ xs) = (¬ In x xs) × Distinct xs

-- The loop that every file has under another name: whether a list has a text.
unfoldable pub contains : List Bytes → Bytes → Bool
contains [] name = false
contains (x ∷ xs) name = (x =ᵇ name) || contains xs name

pub contains_iff : (xs : List Bytes) (a : Bytes) → (contains xs a ≡ true) ↔ In a xs
unfolding contains
contains_iff [] a = ((λ h. ground arith), (λ h. elim h [ ]))
contains_iff (x ∷ xs) a = elim (Bool-cases (x =ᵇ a)) [
  | inl same ↦ ((λ h. inl (sym ((=ᵇ_iff x a).0 same))), (λ h. ground arith))
  | inr other ↦ (
    (λ h. inr ((contains_iff xs a).0 (ground arith))),
    (λ h. elim h [
      | inl e ↦ ground (arith, (=ᵇ_iff x a).1 (sym e))
      | inr later ↦ ground (arith, (contains_iff xs a).1 later)
    ]),
  )
]

pub not-In : (xs : List Bytes) (a : Bytes) → contains xs a ≡ false → ¬ In a xs
not-In xs a h m = ground (arith, (contains_iff xs a).1 m)

pub contains-false : (xs : List Bytes) (a : Bytes) → (¬ In a xs) → contains xs a ≡ false
contains-false xs a h = elim (Bool-cases (contains xs a)) [
  | inl found ↦ absurd (h ((contains_iff xs a).0 found))
  | inr absent ↦ absent
]

pub In-append : (a : Bytes) (xs ys : List Bytes) → In a (xs ++ ys) ↔ (In a xs ⊎ In a ys)
In-append a [] ys = ((λ h. inr h), (λ h. elim h [ inl x ↦ absurd x | inr y ↦ y ]))
In-append a (x ∷ xs) ys = (
  (λ h. elim h [
    | inl e ↦ inl (inl e)
    | inr m ↦ elim ((In-append a xs ys).0 m) [ inl p ↦ inl (inr p) | inr q ↦ inr q ]
  ]),
  (λ h. elim h [
    | inl m ↦ elim m [ inl e ↦ inl e | inr p ↦ inr ((In-append a xs ys).1 (inl p)) ]
    | inr q ↦ inr ((In-append a xs ys).1 (inr q))
  ]),
)

module _ {κ} (P : Bytes → Type κ) where
  pub All-In : (xs : List Bytes) → All P xs → (a : Bytes) → In a xs → P a
  All-In [] h a m = elim m [ ]
  All-In (x ∷ xs) (p, h) a m = elim m [
    | inl e ↦ subst P (sym e) p
    | inr later ↦ All-In xs h a later
  ]

  pub All-intro : (xs : List Bytes) → ((a : Bytes) → In a xs → P a) → All P xs
  All-intro [] h = tt
  All-intro (x ∷ xs) h = (h x (inl refl), All-intro xs (λ a m. h a (inr m)))

-- No text is in both lists.
abbrev pub Apart : List Bytes → List Bytes → Type 0
Apart xs ys = (a : Bytes) → In a xs → ¬ In a ys

pub Apart-cons : (x : Bytes) (xs ys : List Bytes) → Apart (x ∷ xs) ys ↔ ((¬ In x ys) × Apart xs ys)
Apart-cons x xs ys = (
  (λ h. ((λ m. h x (inl refl) m), (λ a m. h a (inr m)))),
  (λ h a m. elim m [ inl e ↦ subst (λ b. ¬ In b ys) (sym e) h.0 | inr n ↦ h.1 a n ]),
)

pub Distinct-append :
    (xs ys : List Bytes) → Distinct (xs ++ ys) ↔ (Distinct xs × Distinct ys × Apart xs ys)
Distinct-append [] ys = ((λ d. (tt, d, (λ a m. absurd m))), (λ h. h.1))
Distinct-append (x ∷ xs) ys = (
  (λ d.
      let (dx, dy, apart) = (Distinct-append xs ys).0 d.1 in
      (
        ((λ m. d.0 ((In-append x xs ys).1 (inl m))), dx),
        dy,
        (Apart-cons x xs ys).1 ((λ m. d.0 ((In-append x xs ys).1 (inr m))), apart),
      )),
  (λ h.
      let apart = (Apart-cons x xs ys).0 h.2 in
      (
        (λ m. elim ((In-append x xs ys).0 m) [ inl p ↦ h.0.0 p | inr q ↦ apart.0 q ]),
        (Distinct-append xs ys).1 (h.0.1, h.1, apart.1),
      )),
)

-- A name joins those that were seen: what is left has no repetition and none of the seen ones.
pub Distinct-seen :
    (x : Bytes) (xs seen : List Bytes)
    → (Distinct xs × Apart xs (x ∷ seen)) ↔ (Distinct (x ∷ xs) × Apart xs seen)
Distinct-seen x xs seen = (
  (λ h. (((λ m. h.1 x m (inl refl)), h.0), (λ a m n. h.1 a m (inr n)))),
  (λ h. (
    h.0.1,
    (λ a m n. elim n [ inl e ↦ h.0.0 (subst (λ b. In b xs) e m) | inr later ↦ h.1 a m later ]),
  )),
)

pub Bytes-cases : (a b : Bytes) → (a ≡ b) ⊎ (a ≢ b)
Bytes-cases a b = elim (Bool-cases (a =ᵇ b)) [
  | inl same ↦ inl ((=ᵇ_iff a b).0 same)
  | inr other ↦ inr (λ e. ground (arith, (=ᵇ_iff a b).1 e))
]
