-- ===== src/Rls/Rules.antt =====
-- When each loop of rlstest/catalog.go finds nothing to complain of.
use mascotapp.Base.{
  ◌≡◌, ◌↔◌, ◌⊎◌, inl, inr, refl, Bool, true, List, [], ◌∷◌, ◌++◌, map, Bytes, All, Bool-cases,
  arith,
}
use mascotapp.Base.Members.{
  In, Distinct, Apart, contains, contains_iff, not-In, contains-false, Apart-cons, Distinct-seen,
  All-In, All-intro,
}
use mascotapp.Base.Sorting.{sort_strings, sort_strings-In}
use mascotapp.Rls.{
  Classification, Problem, duplicates_from, duplicates, is_model_table, complain, lands_problems,
}

-- A table that a migration creates.
abbrev pub IsModel : Classification → Bytes → Type 0
IsModel c a = In a c.tenant ⊎ In a c.non_tenant_model

pub is_model_table_iff :
    (c : Classification) (a : Bytes) → (is_model_table c a ≡ true) ↔ IsModel c a
unfolding is_model_table
is_model_table_iff c a = (
  (λ h. elim (Bool-cases (contains c.tenant a)) [
    | inl t ↦ inl ((contains_iff c.tenant a).0 t)
    | inr n ↦ inr ((contains_iff c.non_tenant_model a).0 (ground arith))
  ]),
  (λ h. elim h [
    | inl t ↦ ground (arith, (contains_iff c.tenant a).1 t)
    | inr n ↦ elim (Bool-cases (contains c.tenant a)) [
      | inl t ↦ ground arith
      | inr t ↦ ground (arith, (contains_iff c.non_tenant_model a).1 n)
    ]
  ]),
)

pub append-eq-nil {ℓ} : {A : Type ℓ} (xs ys : List A) → ((xs ++ ys) ≡ []) ↔ ((xs ≡ []) × (ys ≡ []))
append-eq-nil [] ys = ((λ h. (refl, h)), (λ h. h.1))
append-eq-nil (x ∷ xs) ys = ((λ h. ground arith), (λ h. ground (arith, h.0)))

pub complain-nil :
    (test : Bytes → Bool) (problem : Bytes → Problem) (P : Bytes → Type 0)
    → ((a : Bytes) → (test a ≡ true) ↔ P a)
    → (names : List Bytes) → (complain test problem names ≡ []) ↔ All P names
unfolding complain
complain-nil test problem P means [] = ((λ h. tt), (λ h. refl))
complain-nil test problem P means (x ∷ xs) = elim (Bool-cases (test x)) [
  | inl fine ↦ (
    (λ h. ((means x).0 fine, (complain-nil test problem P means xs).0 (ground arith))),
    (λ h. ground (arith, (complain-nil test problem P means xs).1 h.1)),
  )
  | inr bad ↦ ((λ h. ground arith), (λ h. ground (arith, (means x).1 h.0)))
]

pub All-sorted : (P : Bytes → Type 0) (xs : List Bytes) → All P (sort_strings xs) ↔ All P xs
All-sorted P xs = (
  (λ h. All-intro P xs (λ a m. All-In P (sort_strings xs) h a ((sort_strings-In a xs).1 m))),
  (λ h. All-intro P (sort_strings xs) (λ a m. All-In P xs h a ((sort_strings-In a xs).0 m))),
)

pub lands-nil :
    (c : Classification) (names : List Bytes)
    → (lands_problems c names ≡ []) ↔ All (λ a. IsModel c a × (¬ In a c.no_policy)) names
unfolding lands_problems
lands-nil c [] = ((λ h. tt), (λ h. refl))
lands-nil c (x ∷ xs) = (
  (λ h. (
    ((is_model_table_iff c x).0 (ground arith), not-In c.no_policy x (ground arith)),
    (lands-nil c xs).0 (ground arith),
  )),
  (λ h.
      let model = (is_model_table_iff c x).1 h.0.0 in
      let never = contains-false c.no_policy x h.0.1 in ground (arith, (lands-nil c xs).1 h.1)),
)

duplicates_from-nil :
    (seen names : List Bytes)
    → (duplicates_from seen names ≡ []) ↔ (Distinct names × Apart names seen)
unfolding duplicates_from
duplicates_from-nil seen [] = ((λ h. (tt, (λ a m. absurd m))), (λ h. refl))
duplicates_from-nil seen (x ∷ xs) = elim (Bool-cases (contains seen x)) [
  | inl again ↦
      ((λ h. ground arith), (λ h. absurd (h.1 x (inl refl) ((contains_iff seen x).0 again))))
  | inr new ↦ (
    (λ h.
        let later =
          (Distinct-seen x xs seen).0 ((duplicates_from-nil (x ∷ seen) xs).0 (ground arith)) in
        (later.0, (Apart-cons x xs seen).1 (not-In seen x new, later.1))),
    (λ h. ground (
      arith,
      (duplicates_from-nil (x ∷ seen) xs).1
          ((Distinct-seen x xs seen).1 (h.0, ((Apart-cons x xs seen).0 h.1).1)),
    )),
  )
]

pub duplicates-nil : (names : List Bytes) → (duplicates names ≡ []) ↔ Distinct names
unfolding duplicates
duplicates-nil names = (
  (λ h. ((duplicates_from-nil [] names).0 h).0),
  (λ h. (duplicates_from-nil [] names).1 (h, (λ a m n. n))),
)

pub map-eq-nil {ℓ κ} :
    {A : Type ℓ} {B : Type κ} (f : A → B) (xs : List A) → (map f xs ≡ []) ↔ (xs ≡ [])
map-eq-nil f [] = ((λ h. refl), (λ h. refl))
map-eq-nil f (x ∷ xs) = ((λ h. ground arith), (λ h. ground arith))
