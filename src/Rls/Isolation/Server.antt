-- ===== src/Rls/Isolation/Server.antt =====
-- The case of a table for tenants.go, on a server that enforces row-level security by any policies and
-- grants.
use mascotapp.Base.{
  ℕ, suc, Bool, true, false, ◌&&◌, List, [], ◌∷◌, none, some, Bytes, codes, ◌=ᵇ◌, if◌then◌else◌,
}
use mascotapp.Base.Results.{Result, pass, fail}
use mascotapp.Rls.Isolation.{
  RowKey, Statement, count_all, delete_all, count_where, delete_where, touch_where, SqlError, coded,
  Database, TenantTable,
}

-- The rows of a table: an id and the tenant that the row bears.
abbrev pub Rows : Type 0
Rows = List (Bytes × Bytes)

-- What a scope may do to the row of a tenant, and whether the role may UPDATE and DELETE at all.
pub record Policies : Type 0 where
  pub may_select : Bytes → Bytes → Bool
  pub may_insert : Bytes → Bytes → Bool
  pub may_update : Bytes → Bytes → Bool
  pub may_delete : Bytes → Bytes → Bool
  pub grants_update : Bool
  pub grants_delete : Bool

abbrev counted : (Bytes × Bytes → Bool) → Rows → ℕ
counted reached [] = 0
counted reached (row ∷ rows) =
    let rest = counted reached rows in if reached row then suc rest else rest

abbrev kept : (Bytes × Bytes → Bool) → Rows → Rows
kept reached [] = []
kept reached (row ∷ rows) = let rest = kept reached rows in if reached row then rest else row ∷ rest

abbrev names : List Bytes → Bytes → Bool
names [] id = false
names (arg ∷ args) id = arg =ᵇ id

abbrev refused_statement : {A : Type 0} → Rows → Result SqlError A × Rows
refused_statement w = (fail (coded (codes "42501")), w)

module _ (p : Policies) where
  -- A statement reaches the rows that its policy lets the scope reach; one with a WHERE reads them too.
  abbrev answers : Bytes → Statement → Rows → Result SqlError ℕ × Rows
  answers scope (count_all table) w = (pass (counted (λ row. p.may_select scope row.1) w), w)
  answers scope (count_where table (predicates, args)) w =
      (pass (counted (λ row. p.may_select scope row.1 && names args row.0) w), w)
  answers scope (delete_all table) w =
      if p.grants_delete
      then (
        pass (counted (λ row. p.may_delete scope row.1) w),
        kept (λ row. p.may_delete scope row.1) w,
      )
      else refused_statement w
  answers scope (delete_where table (predicates, args)) w =
      let reached = λ (row : Bytes × Bytes).
        p.may_select scope row.1 && (p.may_delete scope row.1 && names args row.0) in
      if p.grants_delete then (pass (counted reached w), kept reached w) else refused_statement w
  answers scope (touch_where table column (predicates, args)) w =
      let reached = λ (row : Bytes × Bytes).
        p.may_select scope row.1 && (p.may_update scope row.1 && names args row.0) in
      if p.grants_update then (pass (counted reached w), w) else refused_statement w

  abbrev pub server : Database Rows
  server = record {
    run = answers;
    opens = λ scope w. true;
    commits = λ scope w. true;
    savepoint = λ w. true;
  }

  abbrev pub insert_row : Bytes → Bytes → Rows → Result SqlError RowKey × Rows
  insert_row scope owner w =
      if p.may_insert scope owner
      then (pass ((codes "id", codes "1") ∷ []), (codes "1", owner) ∷ w)
      else refused_statement w

  -- The case of a table, by its two flags.
  abbrev pub case_of : Bool → Bool → TenantTable Rows
  case_of append_only no_delete_grant = record {
    name = codes "pets";
    tenant_column = [];
    insert = some insert_row;
    fixture = none;
    append_only = append_only;
    touch_column = [];
    no_delete_grant = no_delete_grant;
  }
