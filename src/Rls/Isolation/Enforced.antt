-- ===== src/Rls/Isolation/Enforced.antt =====
-- Which policies pass the isolation case of tenants.go.
use mascotapp.Base.{
  ◌≡◌, ◌↔◌, inl, inr, Bool, true, false, not, ◌&&◌, ◌||◌, [], Bytes, ◌=ᵇ◌, Bool-cases, arith,
}
use mascotapp.Base.Results.{Result, pass, fail}
use mascotapp.Base.Sorting.{sort_strings}
use mascotapp.Rls.{lookup, sorted_keys}
use mascotapp.Rls.Isolation.{
  where_from, where_clause, is_missing_privilege, CaseError, writing, deleting, seeding_failed,
  can_read, probe_failed, accepted, wiped, forged, lost, tenant_column_of, touch_column_of,
  delete_is_refused, settle, in_scope, expect_refusal, probe_write,
}
use mascotapp.Rls.Isolation.Probes.{
  wipe_refusal, wipe_verdict, after_wipe, forge_verdict, run_fixture, blind_in,
  check_tenant_b_is_blind, check_tenant_b_cannot_wipe_the_table,
  check_tenant_b_cannot_forge_ownership, still_sees_in, check_tenant_a_still_sees_its_row, seed,
  check_seeded, check_insert, check,
}
use mascotapp.Rls.Isolation.Server.{Policies, server, case_of}

module _ {I : Type 0} {r : Result CaseError (Unit {0})} where
  refuted : (e : CaseError) → r ≡ fail e → (I → ⊥) → (r ≡ pass tt) ↔ I
  refuted e broke never = ((λ h. ground (arith, broke, h)), (λ i. absurd (never i)))

  holds : r ≡ pass tt → I → (r ≡ pass tt) ↔ I
  holds passed i = ((λ h. i), (λ h. passed))

module _ (p : Policies) where
  -- What isolates A's rows from B, and what the flags say of the grants.
  abbrev pub Isolates : Bytes → Bytes → Bool → Bool → Type 0
  Isolates a b append_only no_delete_grant =
      (p.may_insert a a ≡ true)
      × (p.may_select a a ≡ true)
      × (p.may_select b a ≡ false)
      × (p.may_insert b a ≡ false)
      × (p.grants_update ≡ not append_only)
      × (p.grants_delete ≡ not (append_only || no_delete_grant))
      × ((p.grants_delete && p.may_delete b a) ≡ false)

  -- A table whose rows stay as they are.
  append_only_case :
      (a b : Bytes) (no_delete_grant : Bool)
      → ((check (server p) a b (case_of p true no_delete_grant) []).0 ≡ pass tt)
        ↔ Isolates a b true no_delete_grant
  unfolding check check_insert check_seeded seed check_tenant_b_is_blind blind_in
      check_tenant_b_cannot_wipe_the_table check_tenant_b_cannot_forge_ownership
      check_tenant_a_still_sees_its_row still_sees_in run_fixture forge_verdict after_wipe
      wipe_verdict wipe_refusal in_scope settle probe_write expect_refusal delete_is_refused
      touch_column_of tenant_column_of where_clause where_from lookup sorted_keys sort_strings ◌=ᵇ◌
      is_missing_privilege
  append_only_case a b no_delete_grant = elim (Bool-cases (p.may_insert a a)) [
    | inl seeds ↦ elim (Bool-cases (p.may_select b a)) [
      | inl blind ↦ refuted (can_read 1) (simp (seeds, blind)) (λ i. ground (arith, i.2, blind))
      | inr blind ↦ elim (Bool-cases (p.grants_update)) [
        | inl fixed ↦
            refuted (accepted writing 0) (simp (seeds, blind, fixed))
              (λ i. ground (arith, i.4, fixed))
        | inr fixed ↦ elim (Bool-cases (p.grants_delete)) [
          | inl stays ↦
              refuted (accepted deleting 0) (simp (seeds, blind, fixed, stays))
                (λ i. ground (arith, i.5, stays))
          | inr stays ↦ elim (Bool-cases (p.may_insert b a)) [
            | inl honest ↦
                refuted forged (simp (seeds, blind, fixed, stays, honest))
                  (λ i. ground (arith, i.3, honest))
            | inr honest ↦ elim (Bool-cases (p.may_select a a)) [
              | inl sees ↦
                  holds (simp (seeds, blind, fixed, stays, honest, sees))
                    (seeds, sees, blind, honest, fixed, stays, ground (arith, stays))
              | inr sees ↦
                  refuted (lost 0) (simp (seeds, blind, fixed, stays, honest, sees))
                    (λ i. ground (arith, i.1, sees))
            ]
          ]
        ]
      ]
    ]
    | inr seeds ↦ refuted seeding_failed (simp seeds) (λ i. ground (arith, i.0, seeds))
  ]

  -- A table whose rows may be changed but not deleted.
  undeleted_case :
      (a b : Bytes)
      → ((check (server p) a b (case_of p false true) []).0 ≡ pass tt) ↔ Isolates a b false true
  unfolding check check_insert check_seeded seed check_tenant_b_is_blind blind_in
      check_tenant_b_cannot_wipe_the_table check_tenant_b_cannot_forge_ownership
      check_tenant_a_still_sees_its_row still_sees_in run_fixture forge_verdict after_wipe
      wipe_verdict wipe_refusal in_scope settle probe_write expect_refusal delete_is_refused
      touch_column_of tenant_column_of where_clause where_from lookup sorted_keys sort_strings ◌=ᵇ◌
      is_missing_privilege
  undeleted_case a b = elim (Bool-cases (p.may_insert a a)) [
    | inl seeds ↦ elim (Bool-cases (p.may_select b a)) [
      | inl blind ↦ refuted (can_read 1) (simp (seeds, blind)) (λ i. ground (arith, i.2, blind))
      | inr blind ↦ elim (Bool-cases (p.grants_update)) [
        | inl updates ↦ elim (Bool-cases (p.grants_delete)) [
          | inl stays ↦
              refuted (accepted deleting 0) (simp (seeds, blind, updates, stays))
                (λ i. ground (arith, i.5, stays))
          | inr stays ↦ elim (Bool-cases (p.may_insert b a)) [
            | inl honest ↦
                refuted forged (simp (seeds, blind, updates, stays, honest))
                  (λ i. ground (arith, i.3, honest))
            | inr honest ↦ elim (Bool-cases (p.may_select a a)) [
              | inl sees ↦
                  holds (simp (seeds, blind, updates, stays, honest, sees))
                    (seeds, sees, blind, honest, updates, stays, ground (arith, stays))
              | inr sees ↦
                  refuted (lost 0) (simp (seeds, blind, updates, stays, honest, sees))
                    (λ i. ground (arith, i.1, sees))
            ]
          ]
        ]
        | inr updates ↦
            refuted (probe_failed writing) (simp (seeds, blind, updates))
              (λ i. ground (arith, i.4, updates))
      ]
    ]
    | inr seeds ↦ refuted seeding_failed (simp seeds) (λ i. ground (arith, i.0, seeds))
  ]

  -- Any other table.
  plain_case :
      (a b : Bytes)
      → ((check (server p) a b (case_of p false false) []).0 ≡ pass tt) ↔ Isolates a b false false
  unfolding check check_insert check_seeded seed check_tenant_b_is_blind blind_in
      check_tenant_b_cannot_wipe_the_table check_tenant_b_cannot_forge_ownership
      check_tenant_a_still_sees_its_row still_sees_in run_fixture forge_verdict after_wipe
      wipe_verdict wipe_refusal in_scope settle probe_write expect_refusal delete_is_refused
      touch_column_of tenant_column_of where_clause where_from lookup sorted_keys sort_strings ◌=ᵇ◌
      is_missing_privilege
  plain_case a b = elim (Bool-cases (p.may_insert a a)) [
    | inl seeds ↦ elim (Bool-cases (p.may_select b a)) [
      | inl blind ↦ refuted (can_read 1) (simp (seeds, blind)) (λ i. ground (arith, i.2, blind))
      | inr blind ↦ elim (Bool-cases (p.grants_update)) [
        | inl updates ↦ elim (Bool-cases (p.grants_delete)) [
          | inl deletes ↦ elim (Bool-cases (p.may_delete b a)) [
            | inl unwiped ↦
                refuted (wiped 1 0) (simp (seeds, blind, updates, deletes, unwiped))
                  (λ i. ground (arith, i.6, deletes, unwiped))
            | inr unwiped ↦ elim (Bool-cases (p.may_insert b a)) [
              | inl honest ↦
                  refuted forged (simp (seeds, blind, updates, deletes, unwiped, honest))
                    (λ i. ground (arith, i.3, honest))
              | inr honest ↦ elim (Bool-cases (p.may_select a a)) [
                | inl sees ↦
                    holds (simp (seeds, blind, updates, deletes, unwiped, honest, sees))
                      (seeds, sees, blind, honest, updates, deletes, ground (arith, unwiped))
                | inr sees ↦
                    refuted (lost 0) (simp (seeds, blind, updates, deletes, unwiped, honest, sees))
                      (λ i. ground (arith, i.1, sees))
              ]
            ]
          ]
          | inr deletes ↦
              refuted (probe_failed deleting) (simp (seeds, blind, updates, deletes))
                (λ i. ground (arith, i.5, deletes))
        ]
        | inr updates ↦
            refuted (probe_failed writing) (simp (seeds, blind, updates))
              (λ i. ground (arith, i.4, updates))
      ]
    ]
    | inr seeds ↦ refuted seeding_failed (simp seeds) (λ i. ground (arith, i.0, seeds))
  ]

  pub check-Isolates :
      (a b : Bytes) (append_only no_delete_grant : Bool)
      → ((check (server p) a b (case_of p append_only no_delete_grant) []).0 ≡ pass tt)
        ↔ Isolates a b append_only no_delete_grant
  check-Isolates a b true no_delete_grant = append_only_case a b no_delete_grant
  check-Isolates a b false true = undeleted_case a b
  check-Isolates a b false false = plain_case a b
