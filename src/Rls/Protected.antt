-- ===== src/Rls/Protected.antt =====
-- What CheckProtection and CheckProtectionAt of rlstest/catalog.go demand of a table, and what the
-- checks together say of a catalogue.
use mascotapp.Base.{
  ℕ, ◌<◌, ◌≡◌, ◌↔◌, ◌⊎◌, inl, inr, sym, subst, Bool, true, false, ◌==◌, ==_iff, List, [], ◌∷◌, ◌++◌,
  map, Option, some, Bytes, All, Bool-cases, Option-cases, arith, ltb→lt, lt→ltb, if◌then◌else◌,
}
use mascotapp.Base.Results.{pass}
use mascotapp.Base.Members.{In, contains, contains_iff, not-In, In-append, Distinct-append}
use mascotapp.Rls.{
  Classification, TableProtection, keys, lookup, is_model_table, validate, classify_all,
  check_pending, check_protection_with, check_protection, lands_later, check_protection_at,
}
use mascotapp.Rls.Reading.{Rows, read_tables, read_tables-pass}
use mascotapp.Rls.Rules.{IsModel, is_model_table_iff}
use mascotapp.Rls.Validated.{validate-nil_iff}
use mascotapp.Rls.Catalog.{ExactlyOne, classify_all-ExactlyOne, check_pending-nil_iff}

-- Row security is on for everyone, the owner too, and there is a policy, or none is due.
abbrev pub IsProtected : Classification → TableProtection → Type 0 → Type 0
IsProtected c t Exempt =
    (t.rls_enabled ≡ true) × (t.rls_forced ≡ true) × (t.policy_count ≡ 0 → Exempt)

check_protection_with-nil :
    (c : Classification) (t : TableProtection) (exempt : Bool)
    → (check_protection_with c t exempt ≡ [])
      ↔ (In t.name c.infrastructure ⊎ (IsModel c t.name × IsProtected c t (exempt ≡ true)))
unfolding check_protection_with
check_protection_with-nil c t exempt = elim (Bool-cases (contains c.infrastructure t.name)) [
  | inl infra ↦ ((λ h. inl ((contains_iff c.infrastructure t.name).0 infra)), (λ h. ground arith))
  | inr own ↦ elim (Bool-cases (is_model_table c t.name)) [
    | inl model ↦ (
      (λ h. inr (
        (is_model_table_iff c t.name).0 model,
        (ground arith, ground arith, (λ e. ground arith)),
      )),
      (λ h. elim h [
        | inl i ↦ absurd (not-In c.infrastructure t.name own i)
        | inr (m, (enabled, forced, due)) ↦ elim (Bool-cases (t.policy_count == 0)) [
          | inl bare ↦ ground (arith, due ((==_iff t.policy_count 0).0 bare))
          | inr held ↦ ground arith
        ]
      ]),
    )
    | inr unknown ↦ (
      (λ h. ground arith),
      (λ h. elim h [
        | inl i ↦ absurd (not-In c.infrastructure t.name own i)
        | inr p ↦ ground (arith, (is_model_table_iff c t.name).1 p.0)
      ]),
    )
  ]
]

IsProtected-map :
    (c : Classification) (t : TableProtection) (P Q : Type 0)
    → (P → Q)
    → (In t.name c.infrastructure ⊎ (IsModel c t.name × IsProtected c t P))
    → In t.name c.infrastructure ⊎ (IsModel c t.name × IsProtected c t Q)
IsProtected-map c t P Q f (inl i) = inl i
IsProtected-map c t P Q f (inr (m, (e, d, due))) = inr (m, (e, d, (λ z. f (due z))))

-- The migration that gives the table its first policy has not run at this version.
abbrev pub AwaitsPolicy : Classification → Bytes → ℕ → Type 0
AwaitsPolicy c name at = (v : ℕ) × (lookup name c.policy_lands_at ≡ some v) × (at < v)

lands_later_iff :
    (c : Classification) (name : Bytes) (at : ℕ)
    → (lands_later c name at ≡ true) ↔ AwaitsPolicy c name at
unfolding lands_later
lands_later_iff c name at = elim (Option-cases (lookup name c.policy_lands_at)) [
  | inl untracked ↦ ((λ h. ground arith), (λ h. ground (arith, h.1)))
  | inr (v, tracked) ↦ (
    (λ h. (v, tracked, ltb→lt at v (ground arith))),
    (λ h. ground (arith, h.1, h.2, lt→ltb at h.0)),
  )
]

exempt_iff :
    (c : Classification) (name : Bytes) (at : ℕ)
    → ((if lands_later c name at then true else contains c.no_policy name) ≡ true)
      ↔ (AwaitsPolicy c name at ⊎ In name c.no_policy)
exempt_iff c name at = elim (Bool-cases (lands_later c name at)) [
  | inl later ↦ ((λ h. inl ((lands_later_iff c name at).0 later)), (λ h. ground arith))
  | inr due ↦ (
    (λ h. inr ((contains_iff c.no_policy name).0 (ground arith))),
    (λ h. elim h [
      | inl a ↦ ground (arith, (lands_later_iff c name at).1 a)
      | inr m ↦ ground (arith, (contains_iff c.no_policy name).1 m)
    ]),
  )
]

pub check_protection-nil_iff :
    (c : Classification) (t : TableProtection)
    → (check_protection c t ≡ [])
      ↔ (In t.name c.infrastructure ⊎ (IsModel c t.name × IsProtected c t (In t.name c.no_policy)))
unfolding check_protection
check_protection-nil_iff c t =
    let shared = check_protection_with-nil c t (contains c.no_policy t.name) in
    let exempt = contains_iff c.no_policy t.name in
    (
      (λ h. IsProtected-map c t _ _ exempt.0 (shared.0 h)),
      (λ h. shared.1 (IsProtected-map c t _ _ exempt.1 h)),
    )

-- CheckProtectionAt passes a table exactly if it is one of the infrastructure, or a model table with
-- row security enabled and forced and a policy, where only a declared exception and a table whose
-- policy lands at a later version may have none. From that version on, it is CheckProtection.
pub check_protection_at-nil_iff :
    (c : Classification) (t : TableProtection) (at : ℕ)
    → ((check_protection_at c t at ≡ []) ↔ (
        In t.name c.infrastructure
        ⊎ (IsModel c t.name × IsProtected c t (AwaitsPolicy c t.name at ⊎ In t.name c.no_policy))))
      × ((¬ AwaitsPolicy c t.name at) → check_protection_at c t at ≡ check_protection c t)
unfolding check_protection_at check_protection
check_protection_at-nil_iff c t at =
    let exempt = exempt_iff c t.name at in
    let shared =
      check_protection_with-nil c t
        (if lands_later c t.name at then true else contains c.no_policy t.name) in
    (
      (
        (λ h. IsProtected-map c t _ _ exempt.0 (shared.0 h)),
        (λ h. shared.1 (IsProtected-map c t _ _ exempt.1 h)),
      ),
      (λ landed. elim (Bool-cases (lands_later c t.name at)) [
        | inl later ↦ absurd (landed ((lands_later_iff c t.name at).0 later))
        | inr due ↦ rw due
      ]),
    )

-- A row of the result with this name.
abbrev pub HasRow : (TableProtection → Type 0) → Bytes → List TableProtection → Type 0
HasRow P a [] = ⊥
HasRow P a (t ∷ ts) = ((a ≡ t.name) × P t) ⊎ HasRow P a ts

abbrev pub names_of : List TableProtection → List Bytes
names_of [] = []
names_of (t ∷ ts) = t.name ∷ names_of ts

HasRow-All :
    (P : TableProtection → Type 0) (ts : List TableProtection) (a : Bytes)
    → All P ts
    → In a (names_of ts)
    → HasRow P a ts
HasRow-All P [] a h m = m
HasRow-All P (t ∷ ts) a (p, h) m = elim m [
  | inl e ↦ inl (e, p)
  | inr later ↦ inr (HasRow-All P ts a h later)
]

HasRow-map :
    (P Q : TableProtection → Type 0) (a : Bytes) (ts : List TableProtection)
    → ((t : TableProtection) → a ≡ t.name → P t → Q t)
    → HasRow P a ts
    → HasRow Q a ts
HasRow-map P Q a [] f h = h
HasRow-map P Q a (t ∷ ts) f h = elim h [
  | inl (e, p) ↦ inl (e, f t e p)
  | inr later ↦ inr (HasRow-map P Q a ts f later)
]

-- A catalogue that every check passes: no table is forgotten.
pub record IsChecked (c : Classification) (tables : List TableProtection) : Type 0 where
  pub valid : validate c ≡ []
  pub known : classify_all c (names_of tables) ≡ []
  pub ledger_empty : c.pending ≡ []
  pub honest : check_pending c (names_of tables) ≡ []
  pub protected : All (λ t. check_protection c t ≡ []) tables

-- Where Validate, ClassifyAll, CheckPending and CheckProtection find nothing in what ReadTables reported
-- and no table is pending, every model table is in the result of the query with row security enabled
-- and forced, and with a policy unless it is a declared exception. Every relation of the result is in
-- exactly one of the three sets, and the query brought these rows and no other.
pub catalogue_protected :
    (c : Classification) (query : Option Rows) (tables : List TableProtection)
    → read_tables query ≡ pass tables
    → IsChecked c tables
    → (query ≡ some (record { scanned = map some tables; interrupted = false }))
      × ((a : Bytes) → IsModel c a → HasRow (λ t. IsProtected c t (In t.name c.no_policy)) a tables)
      × All
          (λ a. ExactlyOne (In a c.tenant) (In a c.non_tenant_model) (In a c.infrastructure))
          (names_of tables)
catalogue_protected c query tables read checked =
    let once = ((validate-nil_iff c).0 checked.valid).classified_once in
    let (ones, rest, apart) = (Distinct-append c.tenant _).0 once in
    let (twos, threes, apart') = (Distinct-append c.non_tenant_model _).0 rest in
    let (ledger, present) = (check_pending-nil_iff c (names_of tables)).0 checked.honest in
    let infra =
      λ (a : Bytes) (m : In a c.infrastructure). (In-append a c.infrastructure []).1 (inl m) in
    let not_infra : (a : Bytes) → IsModel c a → ¬ In a c.infrastructure = λ a model m. elim model [
      | inl t ↦
          apart a t ((In-append a c.non_tenant_model (c.infrastructure ++ [])).1 (inr (infra a m)))
      | inr n ↦ apart' a n (infra a m)
    ] in
    let none_due : (a : Bytes) → ¬ In a (keys c.pending) =
      λ a m. subst (λ l. In a (keys l)) checked.ledger_empty m in
    (
      read_tables-pass query tables read,
      (λ a model.
          HasRow-map _ _ a tables
            (λ t e p. elim ((check_protection-nil_iff c t).0 p) [
              | inl i ↦ absurd (not_infra a model (subst (λ b. In b c.infrastructure) (sym e) i))
              | inr held ↦ held.1
            ])
            (HasRow-All _ tables a checked.protected (present a model (none_due a)))),
      classify_all-ExactlyOne c (names_of tables) checked.valid checked.known,
    )
