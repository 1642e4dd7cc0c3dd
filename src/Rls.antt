-- ===== src/Rls.antt =====
-- apps/api/internal/db/rlstest/catalog.go: the declaration of every table and of what protects it, and
-- the checks of it against itself and against the catalogue of the server. A Go map is the list of its
-- entries, one for each key; an error is the list of the errors that it joins, empty for nil.
pub mod Schema
mod Rules
mod Scanning
pub mod Validated
pub mod Catalog
pub mod Reading
pub mod Protected
pub mod Roles
pub mod Isolation
pub mod Harness
mod Tests
use mascotapp.Base.{
  ℕ, Bool, true, false, not, ◌&&◌, ◌||◌, List, [], ◌∷◌, ◌++◌, map, Option, none, some, Bytes, codes,
  ◌=ᵇ◌, ◌==◌, ltb, if◌then◌else◌,
}
use mascotapp.Base.Members.{contains}
use mascotapp.Base.Results.{Result, pass, fail, ◌>>=◌, or_fail}
use mascotapp.Base.Sorting.{sort_strings}

-- Classification
pub record Classification : Type 0 where
  pub tenant : List Bytes
  pub tenant_children : List Bytes
  pub append_only : List Bytes
  pub non_tenant_model : List Bytes
  pub infrastructure : List Bytes
  pub no_policy : List Bytes
  pub pending : List (Bytes × Bytes)
  pub policy_lands_at : List (Bytes × ℕ)

-- The set that a name was first seen in.
pub data Label : Type 0 where
  tenant_set non_tenant_set infrastructure_set : Label

-- where == set.label
unfoldable pub same_label : Label → Label → Bool
same_label tenant_set tenant_set = true
same_label non_tenant_set non_tenant_set = true
same_label infrastructure_set infrastructure_set = true
same_label _ _ = false

-- What Validate complains of, with the values that its messages show.
pub data Problem : Type 0 where
  listed_twice : Bytes → Label → Problem
  in_both : Bytes → Label → Label → Problem
  child_not_tenant child_twice : Bytes → Problem
  pending_not_model exception_not_model lands_not_model : Bytes → Problem
  lands_and_never : Bytes → Problem
  append_only_not_model append_only_twice : Bytes → Problem

-- The sentinels, each with the names that it is wrapped with.
pub data CatalogError : Type 0 where
  unclassified_relation : List Bytes → CatalogError
  declaration_invalid : List Problem → CatalogError
  pending_table_exists : Bytes → CatalogError
  table_missing rls_not_enabled rls_not_forced no_policies : Bytes → CatalogError

-- m[key], and whether the key is there.
unfoldable pub lookup {ℓ} : {V : Type ℓ} → Bytes → List (Bytes × V) → Option V
lookup key [] = none
lookup key ((k, v) ∷ m) = let later = lookup key m in if k =ᵇ key then some v else later

abbrev pub keys {ℓ} : {V : Type ℓ} → List (Bytes × V) → List Bytes
keys [] = []
keys ((k, v) ∷ m) = k ∷ keys m

-- sortedKeys and sortedInt64Keys
unfoldable pub sorted_keys {ℓ} : {V : Type ℓ} → List (Bytes × V) → List Bytes
sorted_keys m = sort_strings (keys m)

-- The loop of duplicates, with the names that it has seen.
unfoldable pub duplicates_from : List Bytes → List Bytes → List Bytes
duplicates_from seen [] = []
duplicates_from seen (name ∷ names) =
    let rest = duplicates_from (name ∷ seen) names in
    if contains seen name then name ∷ rest else rest

-- duplicates
unfoldable pub duplicates : List Bytes → List Bytes
unfolding duplicates_from
duplicates set = duplicates_from [] set

-- Classification.ModelTables
unfoldable pub model_tables : Classification → List Bytes
model_tables c = sort_strings (c.tenant ++ c.non_tenant_model)

-- Classification.IsModelTable
unfoldable pub is_model_table : Classification → Bytes → Bool
is_model_table c name = contains c.tenant name || contains c.non_tenant_model name

-- The inner loop over one set of Validate: its problems, and the map of the names seen so far.
unfoldable pub scan_set :
    Label → List Bytes → List (Bytes × Label) → List Problem × List (Bytes × Label)
unfolding same_label lookup
scan_set label [] seen = ([], seen)
scan_set label (name ∷ names) seen = elim (lookup name seen) [
  | none ↦ scan_set label names ((name, label) ∷ seen)
  | some where_seen ↦
      let (problems, after) = scan_set label names seen in
      (
        (if same_label where_seen label
              then listed_twice name label
              else in_both name where_seen label)
            ∷ problems,
        after,
      )
]

-- The loop over the three sets.
unfoldable pub scan_sets : List (Label × List Bytes) → List (Bytes × Label) → List Problem
unfolding scan_set
scan_sets [] seen = []
scan_sets ((label, names) ∷ sets) seen =
    let (problems, after) = scan_set label names seen in problems ++ scan_sets sets after

-- A loop that complains of every name that fails a test.
unfoldable pub complain : (Bytes → Bool) → (Bytes → Problem) → List Bytes → List Problem
complain test problem [] = []
complain test problem (name ∷ names) =
    let rest = complain test problem names in if test name then rest else problem name ∷ rest

-- The loop over PolicyLandsAt.
unfoldable pub lands_problems : Classification → List Bytes → List Problem
unfolding is_model_table
lands_problems c [] = []
lands_problems c (name ∷ names) =
    (if is_model_table c name then [] else lands_not_model name ∷ [])
    ++ ((if contains c.no_policy name then lands_and_never name ∷ [] else [])
        ++ lands_problems c names)

-- The slice that Validate collects.
unfoldable pub problems_of : Classification → List Problem
unfolding scan_sets complain lands_problems is_model_table
problems_of c =
    scan_sets
      ((tenant_set, c.tenant)
        ∷ (non_tenant_set, c.non_tenant_model)
        ∷ (infrastructure_set, c.infrastructure)
        ∷ [])
      []
    ++ (complain (contains c.tenant) child_not_tenant c.tenant_children
        ++ (complain (is_model_table c) pending_not_model (sorted_keys c.pending)
            ++ (complain (is_model_table c) exception_not_model c.no_policy
                ++ (lands_problems c (sorted_keys c.policy_lands_at)
                    ++ (map child_twice (duplicates c.tenant_children)
                        ++ (complain (is_model_table c) append_only_not_model c.append_only
                            ++ map append_only_twice (duplicates c.append_only)))))))

-- Classification.Validate
unfoldable pub validate : Classification → List CatalogError
unfolding problems_of
validate c = elim (problems_of c) [ [] ↦ [] | p ∷ ps ↦ declaration_invalid (p ∷ ps) ∷ [] ]

-- The loop of ClassifyAll.
unfoldable pub unknown_relations : Classification → List Bytes → List Bytes
unfolding is_model_table
unknown_relations c [] = []
unknown_relations c (name ∷ names) =
    let rest = unknown_relations c names in
    if not (is_model_table c name) && not (contains c.infrastructure name)
    then name ∷ rest
    else rest

-- Classification.ClassifyAll
unfoldable pub classify_all : Classification → List Bytes → List CatalogError
unfolding unknown_relations
classify_all c existing = elim (unknown_relations c existing) [
  | [] ↦ []
  | u ∷ us ↦ unclassified_relation (sort_strings (u ∷ us)) ∷ []
]

-- The loop of CheckPending over the ledger.
unfoldable pub landed : List Bytes → List Bytes → List CatalogError
landed existing [] = []
landed existing (name ∷ names) =
    let rest = landed existing names in
    if contains existing name then pending_table_exists name ∷ rest else rest

-- The loop of CheckPending over the declared tables.
unfoldable pub missing : Classification → List Bytes → List Bytes → List CatalogError
unfolding lookup
missing c existing [] = []
missing c existing (name ∷ names) =
    let rest = missing c existing names in
    elim (lookup name c.pending) [
      | some reason ↦ rest
      | none ↦ if contains existing name then rest else table_missing name ∷ rest
    ]

-- Classification.CheckPending
unfoldable pub check_pending : Classification → List Bytes → List CatalogError
unfolding landed missing sorted_keys model_tables
check_pending c existing =
    landed existing (sorted_keys c.pending) ++ missing c existing (model_tables c)

-- TableProtection
pub record TableProtection : Type 0 where
  pub name : Bytes
  pub rls_enabled : Bool
  pub rls_forced : Bool
  pub policy_count : ℕ

-- Classification.checkProtection
unfoldable pub check_protection_with : Classification → TableProtection → Bool → List CatalogError
unfolding is_model_table
check_protection_with c t policy_exempt =
    if contains c.infrastructure t.name
    then []
    else if not (is_model_table c t.name)
    then unclassified_relation (t.name ∷ []) ∷ []
    else (if not t.rls_enabled then rls_not_enabled t.name ∷ [] else [])
      ++ ((if not t.rls_forced then rls_not_forced t.name ∷ [] else [])
          ++ (if t.policy_count == 0 && not policy_exempt then no_policies t.name ∷ [] else []))

-- Classification.CheckProtection
unfoldable pub check_protection : Classification → TableProtection → List CatalogError
unfolding check_protection_with
check_protection c t = check_protection_with c t (contains c.no_policy t.name)

-- landsAt, tracked := c.PolicyLandsAt[t.Name]; tracked && at < landsAt
unfoldable pub lands_later : Classification → Bytes → ℕ → Bool
unfolding lookup
lands_later c name at = elim (lookup name c.policy_lands_at) [
  | none ↦ false
  | some lands_at ↦ ltb at lands_at
]

-- Classification.CheckProtectionAt
unfoldable pub check_protection_at : Classification → TableProtection → ℕ → List CatalogError
unfolding check_protection_with lands_later
check_protection_at c t at =
    check_protection_with c t
      (if lands_later c t.name at then true else contains c.no_policy t.name)
