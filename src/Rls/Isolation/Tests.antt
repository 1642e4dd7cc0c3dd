-- ===== src/Rls/Isolation/Tests.antt =====
-- The isolation case on a server whose policies let each tenant reach its own rows only, and on one
-- whose DELETE policy lets it reach every row.
use mascotapp.Base.{◌≡◌, ◌↔◌, refl, true, false, [], ◌∷◌, codes, ◌=ᵇ◌}
use mascotapp.Base.Results.{pass, fail}
use mascotapp.Base.Sorting.{sort_strings}
use mascotapp.Rls.{lookup, sorted_keys}
use mascotapp.Rls.Isolation.{
  where_from, where_clause, is_missing_privilege, wiped, tenant_column_of, touch_column_of,
  delete_is_refused, settle, in_scope, expect_refusal, probe_write,
}
use mascotapp.Rls.Isolation.Probes.{
  wipe_refusal, wipe_verdict, after_wipe, forge_verdict, run_fixture, blind_in,
  check_tenant_b_is_blind, check_tenant_b_cannot_wipe_the_table,
  check_tenant_b_cannot_forge_ownership, still_sees_in, check_tenant_a_still_sees_its_row, seed,
  check_seeded, check_insert, check,
}
use mascotapp.Rls.Isolation.Server.{Policies, server, case_of}
use mascotapp.Rls.Isolation.Enforced.{Isolates, check-Isolates}

abbrev own_rows : Policies
own_rows = record {
  may_select = λ scope owner. scope =ᵇ owner;
  may_insert = λ scope owner. scope =ᵇ owner;
  may_update = λ scope owner. scope =ᵇ owner;
  may_delete = λ scope owner. scope =ᵇ owner;
  grants_update = true;
  grants_delete = true;
}

check-Isolates_example :
    ((check (server own_rows) (codes "A") (codes "B") (case_of own_rows false false) []).0
      ≡ pass tt)
    ↔ Isolates own_rows (codes "A") (codes "B") false false
check-Isolates_example = check-Isolates own_rows (codes "A") (codes "B") false false

passes_alone :
    (check (server own_rows) (codes "A") (codes "B") (case_of own_rows false false) []).0 ≡ pass tt
unfolding ◌=ᵇ◌
passes_alone = check-Isolates_example.1 (refl, refl, refl, refl, refl, refl, refl)

-- A DELETE policy that lets every row be deleted is found, though no count shows it.
abbrev permissive : Policies
permissive = record own_rows { may_delete = λ scope owner. true }

permissive_delete_is_found :
    check (server permissive) (codes "A") (codes "B") (case_of permissive false false) []
    ≡ (fail (wiped 1 0), (codes "1", codes "A") ∷ [])
unfolding check check_insert check_seeded seed check_tenant_b_is_blind blind_in
    check_tenant_b_cannot_wipe_the_table check_tenant_b_cannot_forge_ownership
    check_tenant_a_still_sees_its_row still_sees_in run_fixture forge_verdict after_wipe
    wipe_verdict wipe_refusal in_scope settle probe_write expect_refusal delete_is_refused
    touch_column_of tenant_column_of where_clause where_from lookup sorted_keys sort_strings ◌=ᵇ◌
    is_missing_privilege
permissive_delete_is_found = refl
