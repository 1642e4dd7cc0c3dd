-- ===== src/Rls/Catalog.antt =====
-- What the checks of rlstest/catalog.go say of the tables that the server reports.
use mascotapp.Base.{
  ◌≡◌, ◌↔◌, ◌⊎◌, inl, inr, refl, sym, subst, List, [], ◌∷◌, ◌++◌, Bytes, All, Bool-cases,
  Option-cases, arith,
}
use mascotapp.Base.Members.{
  In, Apart, contains, contains_iff, not-In, In-append, Distinct-append, All-In, All-intro,
}
use mascotapp.Base.Sorting.{sort_strings, sort_strings-In}
use mascotapp.Rls.{
  Classification, keys, lookup, sorted_keys, model_tables, is_model_table, validate,
  unknown_relations, classify_all, landed, missing, check_pending,
}
use mascotapp.Rls.Rules.{IsModel, is_model_table_iff, append-eq-nil}
use mascotapp.Rls.Scanning.{lookup-none}
use mascotapp.Rls.Validated.{validate-nil_iff}

-- A relation that some set accounts for.
abbrev pub IsDeclared : Classification → Bytes → Type 0
IsDeclared c a = IsModel c a ⊎ In a c.infrastructure

unknown-nil :
    (c : Classification) (names : List Bytes)
    → (unknown_relations c names ≡ []) ↔ All (IsDeclared c) names
unfolding unknown_relations
unknown-nil c [] = ((λ h. tt), (λ h. refl))
unknown-nil c (x ∷ xs) = elim (Bool-cases (is_model_table c x)) [
  | inl model ↦ (
    (λ h. (inl ((is_model_table_iff c x).0 model), (unknown-nil c xs).0 (ground arith))),
    (λ h. ground (arith, (unknown-nil c xs).1 h.1)),
  )
  | inr other ↦ elim (Bool-cases (contains c.infrastructure x)) [
    | inl infra ↦ (
      (λ h. (inr ((contains_iff c.infrastructure x).0 infra), (unknown-nil c xs).0 (ground arith))),
      (λ h. ground (arith, (unknown-nil c xs).1 h.1)),
    )
    | inr unknown ↦ (
      (λ h. ground arith),
      (λ h. elim h.0 [
        | inl m ↦ ground (arith, (is_model_table_iff c x).1 m)
        | inr i ↦ ground (arith, (contains_iff c.infrastructure x).1 i)
      ]),
    )
  ]
]

pub classify_all-nil_iff :
    (c : Classification) (existing : List Bytes)
    → (classify_all c existing ≡ []) ↔ All (IsDeclared c) existing
unfolding classify_all
classify_all-nil_iff c existing = (
  (λ h. (unknown-nil c existing).0 (ground arith)),
  (λ h. ground (arith, (unknown-nil c existing).1 h)),
)

abbrev pub ExactlyOne : Type 0 → Type 0 → Type 0 → Type 0
ExactlyOne A B C = (A × (¬ B) × (¬ C)) ⊎ (((¬ A) × B × (¬ C)) ⊎ ((¬ A) × (¬ B) × C))

-- Where Validate and ClassifyAll find nothing, every relation that exists is in exactly one of the
-- three sets.
pub classify_all-ExactlyOne :
    (c : Classification) (existing : List Bytes)
    → validate c ≡ []
    → classify_all c existing ≡ []
    → All
        (λ a. ExactlyOne (In a c.tenant) (In a c.non_tenant_model) (In a c.infrastructure))
        existing
classify_all-ExactlyOne c existing valid known =
    let once = ((validate-nil_iff c).0 valid).classified_once in
    let (ones, rest, apart) = (Distinct-append c.tenant _).0 once in
    let (twos, threes, apart') = (Distinct-append c.non_tenant_model _).0 rest in
    let infra =
      λ (a : Bytes) (m : In a c.infrastructure). (In-append a c.infrastructure []).1 (inl m) in
    let later = λ (a : Bytes) (m : In a c.infrastructure).
      (In-append a c.non_tenant_model (c.infrastructure ++ [])).1 (inr (infra a m)) in
    let second = λ (a : Bytes) (m : In a c.non_tenant_model).
      (In-append a c.non_tenant_model (c.infrastructure ++ [])).1 (inl m) in
    All-intro _ existing (λ a m.
      elim (All-In (IsDeclared c) existing ((classify_all-nil_iff c existing).0 known) a m) [
        | inl model ↦ elim model [
          | inl t ↦ inl (t, (λ n. apart a t (second a n)), (λ i. apart a t (later a i)))
          | inr n ↦ inr (inl ((λ t. apart a t (second a n)), n, (λ i. apart' a n (infra a i))))
        ]
        | inr i ↦ inr (inr ((λ t. apart a t (later a i)), (λ n. apart' a n (infra a i)), i))
      ])

landed-nil : (existing names : List Bytes) → (landed existing names ≡ []) ↔ Apart names existing
unfolding landed
landed-nil existing [] = ((λ h a m. absurd m), (λ h. refl))
landed-nil existing (x ∷ xs) = elim (Bool-cases (contains existing x)) [
  | inl there ↦
      ((λ h. ground arith), (λ h. absurd (h x (inl refl) ((contains_iff existing x).0 there))))
  | inr absent ↦ (
    (λ h a m. elim m [
      | inl e ↦ subst (λ b. ¬ In b existing) (sym e) (not-In existing x absent)
      | inr later ↦ (landed-nil existing xs).0 (ground arith) a later
    ]),
    (λ h. ground (arith, (landed-nil existing xs).1 (λ a m. h a (inr m)))),
  )
]

missing-nil :
    (c : Classification) (existing names : List Bytes)
    → (missing c existing names ≡ []) ↔ All (λ a. (¬ In a (keys c.pending)) → In a existing) names
unfolding missing
missing-nil c existing [] = ((λ h. tt), (λ h. refl))
missing-nil c existing (x ∷ xs) = elim (Option-cases (lookup x c.pending)) [
  | inl due ↦ elim (Bool-cases (contains existing x)) [
    | inl there ↦ (
      (λ h.
          ((λ n. (contains_iff existing x).0 there), (missing-nil c existing xs).0 (ground arith))),
      (λ h. ground (arith, (missing-nil c existing xs).1 h.1)),
    )
    | inr absent ↦ (
      (λ h. ground arith),
      (λ h. absurd (not-In existing x absent (h.0 ((lookup-none x c.pending).0 due)))),
    )
  ]
  | inr (reason, waiting) ↦ (
    (λ h. (
      (λ n. ground (arith, (lookup-none x c.pending).1 n)),
      (missing-nil c existing xs).0 (ground arith),
    )),
    (λ h. ground (arith, (missing-nil c existing xs).1 h.1)),
  )
]

-- The ledger of tables that are not created yet is honest.
abbrev pub IsHonest : Classification → List Bytes → Type 0
IsHonest c existing =
    Apart (keys c.pending) existing
    × ((a : Bytes) → IsModel c a → (¬ In a (keys c.pending)) → In a existing)

-- CheckPending finds nothing exactly if no pending table exists and every model table that is not
-- pending does.
pub check_pending-nil_iff :
    (c : Classification) (existing : List Bytes)
    → (check_pending c existing ≡ []) ↔ IsHonest c existing
unfolding check_pending sorted_keys model_tables
check_pending-nil_iff c existing =
    let all = c.tenant ++ c.non_tenant_model in
    let parts =
      append-eq-nil (landed existing (sorted_keys c.pending))
        (missing c existing (model_tables c)) in
    let Due = λ (a : Bytes). (¬ In a (keys c.pending)) → In a existing in
    (
      (λ h.
          let (ledger, rest) = parts.0 h in
          (
            (λ a m.
                (landed-nil existing (sorted_keys c.pending)).0 ledger a
                  ((sort_strings-In a (keys c.pending)).1 m)),
            (λ a m.
                All-In Due (sort_strings all) ((missing-nil c existing (model_tables c)).0 rest) a
                  ((sort_strings-In a all).1 ((In-append a c.tenant c.non_tenant_model).1 m))),
          )),
      (λ h. parts.1 (
        (landed-nil existing (sorted_keys c.pending)).1
            (λ a m. h.0 a ((sort_strings-In a (keys c.pending)).0 m)),
        (missing-nil c existing (model_tables c)).1 (
            All-intro Due (sort_strings all) (λ a m.
              h.1 a ((In-append a c.tenant c.non_tenant_model).0 ((sort_strings-In a all).0 m)))),
      )),
    )
