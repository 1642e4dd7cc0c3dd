-- ===== src/Base/Sorting.antt =====
-- sort.Strings and sort.Slice: the order of Go strings, and a sort that forgets the order it was given.
use mathlib.Core.Path.{◌≡◌, refl, subst, ◌∙◌}
use mathlib.Core.Logic.{◌↔◌, ◌⊎◌, inl, inr}
use mathlib.Core.Bool.{Bool, true, false, ◌&&◌, ◌||◌}
use mathlib.Core.List.{List, [], ◌∷◌, Permᴰ}
use mathlib.Core.List.Permᴰ
use native.Mathlib.Omega.{arith}
use mascotapp.Base.Tests.{◌==◌, ltb, if◌then◌else◌, Bool-cases}
use mascotapp.Base.Texts.{Bytes}
use mascotapp.Base.Members.{In}

-- s <= t on strings, which Go compares by their bytes.
unfoldable pub not_after : Bytes → Bytes → Bool
not_after [] ys = true
not_after (x ∷ xs) [] = false
not_after (x ∷ xs) (y ∷ ys) = ltb x y || (x == y && not_after xs ys)

pub not_after_total : (xs ys : Bytes) → not_after xs ys ≡ false → not_after ys xs ≡ true
unfolding not_after
not_after_total [] [] h = ground arith
not_after_total [] (y ∷ ys) h = ground arith
not_after_total (x ∷ xs) [] h = refl
not_after_total (x ∷ xs) (y ∷ ys) h = ground (arith, not_after_total xs ys)

pub not_after_trans :
    (xs ys zs : Bytes) → not_after xs ys ≡ true → not_after ys zs ≡ true → not_after xs zs ≡ true
unfolding not_after
not_after_trans [] ys zs h k = refl
not_after_trans (x ∷ xs) [] zs h k = ground arith
not_after_trans (x ∷ xs) (y ∷ ys) [] h k = ground arith
not_after_trans (x ∷ xs) (y ∷ ys) (z ∷ zs) h k = ground (arith, not_after_trans xs ys zs)

pub not_after_antisymm : (xs ys : Bytes) → not_after xs ys ≡ true → not_after ys xs ≡ true → xs ≡ ys
unfolding not_after
not_after_antisymm [] [] h k = refl
not_after_antisymm [] (y ∷ ys) h k = ground arith
not_after_antisymm (x ∷ xs) [] h k = ground arith
not_after_antisymm (x ∷ xs) (y ∷ ys) h k = ground (arith, not_after_antisymm xs ys)

unfoldable pub insert_sorted : Bytes → List Bytes → List Bytes
insert_sorted x [] = x ∷ []
insert_sorted x (y ∷ ys) =
    let rest = insert_sorted x ys in if not_after x y then x ∷ y ∷ ys else y ∷ rest

unfoldable pub sort_strings : List Bytes → List Bytes
unfolding insert_sorted
sort_strings [] = []
sort_strings (x ∷ xs) = insert_sorted x (sort_strings xs)

insert_comm :
    (x y : Bytes) (zs : List Bytes)
    → insert_sorted x (insert_sorted y zs) ≡ insert_sorted y (insert_sorted x zs)
unfolding insert_sorted
insert_comm x y [] = ground (arith, not_after_total x y, not_after_antisymm x y)
insert_comm x y (z ∷ zs) = ground (
  arith,
  insert_comm x y zs,
  not_after_total x y,
  not_after_antisymm x y,
  not_after_trans x y z,
  not_after_trans y x z,
)

pub sort_strings-perm : {xs ys : List Bytes} → Permᴰ xs ys → sort_strings xs ≡ sort_strings ys
unfolding sort_strings
sort_strings-perm Permᴰ.nil = refl
sort_strings-perm (Permᴰ.cons {a} e p) = cc (e, sort_strings-perm p)
sort_strings-perm (Permᴰ.swap {a} {b} {a'} {b'} {l} e f) =
    cc (e, f, insert_comm a b (sort_strings l))
sort_strings-perm (Permᴰ.trans p q) = sort_strings-perm p ∙ sort_strings-perm q

insert_sorted-In : (a x : Bytes) (ys : List Bytes) → In a (insert_sorted x ys) ↔ ((a ≡ x) ⊎ In a ys)
unfolding insert_sorted
insert_sorted-In a x [] = ((λ h. h), (λ h. h))
insert_sorted-In a x (y ∷ ys) = elim (Bool-cases (not_after x y)) [
  | inl first ↦ rw first ((λ h. h), (λ h. h))
  | inr later ↦ rw later (
    (λ h. elim h [
      | inl e ↦ inr (inl e)
      | inr m ↦ elim ((insert_sorted-In a x ys).0 m) [ inl e ↦ inl e | inr n ↦ inr (inr n) ]
    ]),
    (λ h. elim h [
      | inl e ↦ inr ((insert_sorted-In a x ys).1 (inl e))
      | inr m ↦ elim m [ inl e ↦ inl e | inr n ↦ inr ((insert_sorted-In a x ys).1 (inr n)) ]
    ]),
  )
]

-- Sorting keeps the members.
pub sort_strings-In : (a : Bytes) (xs : List Bytes) → In a (sort_strings xs) ↔ In a xs
unfolding sort_strings
sort_strings-In a [] = ((λ h. h), (λ h. h))
sort_strings-In a (x ∷ xs) = (
  (λ h. elim ((insert_sorted-In a x (sort_strings xs)).0 h) [
    | inl e ↦ inl e
    | inr m ↦ inr ((sort_strings-In a xs).0 m)
  ]),
  (λ h.
      (insert_sorted-In a x (sort_strings xs)).1
        (elim h [ inl e ↦ inl e | inr m ↦ inr ((sort_strings-In a xs).1 m) ])),
)

pub sort_strings-nil : (xs : List Bytes) → sort_strings xs ≡ [] → xs ≡ []
unfolding sort_strings
sort_strings-nil [] h = refl
sort_strings-nil (x ∷ xs) h =
    absurd (subst (In x) h ((insert_sorted-In x x (sort_strings xs)).1 (inl refl)))

module _ {ℓ} {A : Type ℓ} (first : A → A → Bool) where
  unfoldable pub insert_by : A → List A → List A
  insert_by x [] = x ∷ []
  insert_by x (y ∷ ys) = let rest = insert_by x ys in if first x y then x ∷ y ∷ ys else y ∷ rest

  -- A sort by a test that one element may stand before another.
  unfoldable pub sort_by : List A → List A
  unfolding insert_by
  sort_by [] = []
  sort_by (x ∷ xs) = insert_by x (sort_by xs)

  insert_by-perm : (x : A) (ys : List A) → Permᴰ (insert_by x ys) (x ∷ ys)
  unfolding insert_by
  insert_by-perm x [] = Permᴰ.refl (x ∷ [])
  insert_by-perm x (y ∷ ys) = elim (Bool-cases (first x y)) [
    | inl before ↦ rw before (Permᴰ.refl (x ∷ y ∷ ys))
    | inr after ↦
        rw after (Permᴰ.trans (Permᴰ.cons refl (insert_by-perm x ys)) (Permᴰ.swap refl refl))
  ]

  pub sort_by-perm : (xs : List A) → Permᴰ (sort_by xs) xs
  unfolding sort_by
  sort_by-perm [] = Permᴰ.nil
  sort_by-perm (x ∷ xs) =
      Permᴰ.trans (insert_by-perm x (sort_by xs)) (Permᴰ.cons refl (sort_by-perm xs))
