-- ===== src/Rls/Tests.antt =====
-- Runs of the catalogue checks on the declaration of the schema.
use mascotapp.Base.{
  ℕ, ◌≡◌, ◌↔◌, ◌⊎◌, refl, true, false, List, [], ◌∷◌, map, Option, some, Bytes, codes, ◌=ᵇ◌, All,
}
use mascotapp.Base.Results.{pass}
use mascotapp.Base.Members.{In, contains}
use mascotapp.Base.Sorting.{sort_strings, not_after}
use mascotapp.Rls.{
  Classification, TableProtection, validate, classify_all, check_pending, check_protection,
  check_protection_at, in_both, declaration_invalid, tenant_set, non_tenant_set, sorted_keys,
  duplicates,
}
use mascotapp.Rls.Reading.{Rows, read_tables}
use mascotapp.Rls.Schema.{schema}
use mascotapp.Rls.Rules.{IsModel}
use mascotapp.Rls.Validated.{IsConsistent, validate-nil_iff}
use mascotapp.Rls.Catalog.{ExactlyOne}
use mascotapp.Rls.Protected.{
  IsProtected, AwaitsPolicy, HasRow, IsChecked, names_of, check_protection_at-nil_iff,
  catalogue_protected,
}
use mascotapp.Rls.Roles.{RoleCapabilities, guard_role, IsBound, guard_role-pass_iff}

-- A small declaration, with one table that is not created yet.
abbrev small : Classification
small = record {
  tenant = codes "pets" ∷ codes "media" ∷ [];
  tenant_children = codes "media" ∷ [];
  non_tenant_model = codes "users" ∷ [];
  infrastructure = codes "goose_db_version" ∷ [];
  append_only = [];
  no_policy = [];
  pending = [];
  policy_lands_at = (codes "users", 13) ∷ [];
}

abbrev row : Bytes → ℕ → TableProtection
row name policies = record {
  name = name;
  rls_enabled = true;
  rls_forced = true;
  policy_count = policies;
}

abbrev tables : List TableProtection
tables = row (codes "media") 1 ∷ row (codes "pets") 2 ∷ row (codes "users") 1 ∷ []

-- The shipped declaration is consistent, and a table in two sets is reported.
schema_valid : validate schema ≡ []
unfolding validate ◌=ᵇ◌ contains sorted_keys sort_strings duplicates
schema_valid = refl

listed_in_both :
    validate (record small { non_tenant_model = codes "pets" ∷ codes "users" ∷ [] })
    ≡ declaration_invalid (in_both (codes "pets") tenant_set non_tenant_set ∷ []) ∷ []
unfolding validate ◌=ᵇ◌ contains sorted_keys sort_strings duplicates
listed_in_both = refl

small_valid : validate small ≡ []
unfolding validate ◌=ᵇ◌ contains sorted_keys sort_strings duplicates
small_valid = refl

small_known : classify_all small (codes "pets" ∷ codes "goose_db_version" ∷ []) ≡ []
unfolding classify_all contains ◌=ᵇ◌
small_known = refl

small-IsChecked : IsChecked small tables
unfolding classify_all check_pending check_protection validate ◌=ᵇ◌ not_after contains sorted_keys
    sort_strings duplicates
small-IsChecked = record {
  valid = refl;
  known = refl;
  ledger_empty = refl;
  honest = refl;
  protected = (refl, (refl, (refl, tt)));
}

small_read :
    read_tables (some (record { scanned = map some tables; interrupted = false })) ≡ pass tables
unfolding read_tables
small_read = refl

validate-nil_iff_example : (validate schema ≡ []) ↔ IsConsistent schema
validate-nil_iff_example = validate-nil_iff schema

check_protection_at-nil_iff_example :
    ((check_protection_at small (row (codes "users") 0) 12 ≡ []) ↔ (
      In (codes "users") small.infrastructure
      ⊎ (IsModel small (codes "users")
          × IsProtected small
              (row (codes "users") 0)
              (AwaitsPolicy small (codes "users") 12 ⊎ In (codes "users") small.no_policy))))
    × ((¬ AwaitsPolicy small (codes "users") 12)
        → check_protection_at small (row (codes "users") 0) 12
          ≡ check_protection small (row (codes "users") 0))
check_protection_at-nil_iff_example = check_protection_at-nil_iff small (row (codes "users") 0) 12

catalogue_protected_example :
    (◌≡◌ {A = Option Rows}
      (some (record { scanned = map some tables; interrupted = false }))
      (some (record { scanned = map some tables; interrupted = false })))
    × ((a : Bytes)
        → IsModel small a
        → HasRow (λ t. IsProtected small t (In t.name small.no_policy)) a tables)
    × All
        (λ a.
          ExactlyOne (In a small.tenant) (In a small.non_tenant_model) (In a small.infrastructure))
        (names_of tables)
catalogue_protected_example =
    catalogue_protected small (some (record { scanned = map some tables; interrupted = false }))
      tables small_read small-IsChecked

abbrev tenant_role : RoleCapabilities
tenant_role = record { name = codes "app_tenant"; super = false; bypass_rls = false }

guard_role-pass_iff_example :
    (guard_role (some tenant_role) (codes "mascotapp") ≡ pass tenant_role)
    ↔ ((some tenant_role ≡ some tenant_role) × IsBound tenant_role (codes "mascotapp"))
guard_role-pass_iff_example = guard_role-pass_iff (some tenant_role) (codes "mascotapp") tenant_role
