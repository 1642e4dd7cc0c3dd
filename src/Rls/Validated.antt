-- ===== src/Rls/Validated.antt =====
-- What Validate of rlstest/catalog.go says of a declaration that it finds nothing wrong with.
use mascotapp.Base.{◌≡◌, ◌↔◌, List, [], ◌∷◌, ◌++◌, map, Bytes, All, arith}
use mascotapp.Base.Members.{In, Distinct, contains}
use mascotapp.Rls.{
  Classification, Label, tenant_set, non_tenant_set, infrastructure_set, keys, sorted_keys,
  duplicates, is_model_table, scan_sets, complain, lands_problems, problems_of, validate,
  child_not_tenant, child_twice, pending_not_model, exception_not_model, append_only_not_model,
  append_only_twice,
}
use mascotapp.Base.Members.{contains_iff}
use mascotapp.Rls.Rules.{
  IsModel, is_model_table_iff, append-eq-nil, complain-nil, All-sorted, lands-nil, duplicates-nil,
  map-eq-nil,
}
use mascotapp.Rls.Scanning.{scan_sets-nil}

-- The declaration does not contradict itself.
pub record IsConsistent (c : Classification) : Type 0 where
  pub classified_once : Distinct (c.tenant ++ (c.non_tenant_model ++ (c.infrastructure ++ [])))
  pub children : All (λ a. In a c.tenant) c.tenant_children
  pub pending_known : All (IsModel c) (keys c.pending)
  pub exceptions_known : All (IsModel c) c.no_policy
  pub lands_known : All (λ a. IsModel c a × (¬ In a c.no_policy)) (keys c.policy_lands_at)
  pub children_once : Distinct c.tenant_children
  pub append_only_known : All (IsModel c) c.append_only
  pub append_only_once : Distinct c.append_only

abbrev three_sets : Classification → List (Label × List Bytes)
three_sets c =
    (tenant_set, c.tenant)
    ∷ (non_tenant_set, c.non_tenant_model)
    ∷ (infrastructure_set, c.infrastructure)
    ∷ []

-- The eight loops of Validate, all quiet.
record IsQuiet (c : Classification) : Type 0 where
  sets : scan_sets (three_sets c) [] ≡ []
  children : complain (contains c.tenant) child_not_tenant c.tenant_children ≡ []
  pending : complain (is_model_table c) pending_not_model (sorted_keys c.pending) ≡ []
  exceptions : complain (is_model_table c) exception_not_model c.no_policy ≡ []
  lands : lands_problems c (sorted_keys c.policy_lands_at) ≡ []
  child_dups : map child_twice (duplicates c.tenant_children) ≡ []
  append_only : complain (is_model_table c) append_only_not_model c.append_only ≡ []
  append_only_dups : map append_only_twice (duplicates c.append_only) ≡ []

validate-IsQuiet : (c : Classification) → (validate c ≡ []) ↔ IsQuiet c
unfolding validate problems_of
validate-IsQuiet c = (
  (λ h.
      let none_left : problems_of c ≡ [] = ground arith in
      let (a, r1) = (append-eq-nil _ _).0 none_left in
      let (b, r2) = (append-eq-nil _ _).0 r1 in
      let (d, r3) = (append-eq-nil _ _).0 r2 in
      let (e, r4) = (append-eq-nil _ _).0 r3 in
      let (f, r5) = (append-eq-nil _ _).0 r4 in
      let (g, r6) = (append-eq-nil _ _).0 r5 in
      let (i, j) = (append-eq-nil _ _).0 r6 in
      record {
        sets = a;
        children = b;
        pending = d;
        exceptions = e;
        lands = f;
        child_dups = g;
        append_only = i;
        append_only_dups = j;
      }),
  (λ q.
      let none_left : problems_of c ≡ [] =
        rw (q.sets, q.children, q.pending, q.exceptions, q.lands, q.child_dups, q.append_only)
          q.append_only_dups in
      ground arith),
)

-- Validate finds nothing exactly in a declaration that does not contradict itself: every table is
-- classified once, every child is a tenant table, and every ledger and list names model tables, of
-- which none is both without a policy for good and awaiting one; no child and no append-only
-- table is listed twice.
pub validate-nil_iff : (c : Classification) → (validate c ≡ []) ↔ IsConsistent c
unfolding sorted_keys
validate-nil_iff c =
    let model = is_model_table_iff c in
    let pendings = complain-nil (is_model_table c) pending_not_model (IsModel c) model in
    let exceptions = complain-nil (is_model_table c) exception_not_model (IsModel c) model in
    let append_onlys = complain-nil (is_model_table c) append_only_not_model (IsModel c) model in
    let children =
      complain-nil (contains c.tenant) child_not_tenant (λ a. In a c.tenant)
        (contains_iff c.tenant) in
    let CanLand = λ (a : Bytes). IsModel c a × (¬ In a c.no_policy) in
    (
      (λ h.
          let q = (validate-IsQuiet c).0 h in
          record {
            classified_once = ((scan_sets-nil (three_sets c) []).0 q.sets).0;
            children = (children c.tenant_children).0 q.children;
            pending_known =
                (All-sorted (IsModel c) (keys c.pending)).0
                  ((pendings (sorted_keys c.pending)).0 q.pending);
            exceptions_known = (exceptions c.no_policy).0 q.exceptions;
            lands_known =
                (All-sorted CanLand (keys c.policy_lands_at)).0
                  ((lands-nil c (sorted_keys c.policy_lands_at)).0 q.lands);
            children_once =
                (duplicates-nil c.tenant_children).0 ((map-eq-nil child_twice _).0 q.child_dups);
            append_only_known = (append_onlys c.append_only).0 q.append_only;
            append_only_once =
                (duplicates-nil c.append_only).0
                  ((map-eq-nil append_only_twice _).0 q.append_only_dups);
          }),
      (λ h. (validate-IsQuiet c).1 (record {
        sets = (scan_sets-nil (three_sets c) []).1 (h.classified_once, (λ a m n. n));
        children = (children c.tenant_children).1 h.children;
        pending =
            (pendings (sorted_keys c.pending)).1
              ((All-sorted (IsModel c) (keys c.pending)).1 h.pending_known);
        exceptions = (exceptions c.no_policy).1 h.exceptions_known;
        lands =
            (lands-nil c (sorted_keys c.policy_lands_at)).1
              ((All-sorted CanLand (keys c.policy_lands_at)).1 h.lands_known);
        child_dups =
            (map-eq-nil child_twice _).1 ((duplicates-nil c.tenant_children).1 h.children_once);
        append_only = (append_onlys c.append_only).1 h.append_only_known;
        append_only_dups =
            (map-eq-nil append_only_twice _).1
              ((duplicates-nil c.append_only).1 h.append_only_once);
      })),
    )
