-- ===== src/Rls/Isolation.antt =====
-- apps/api/internal/db/dbtest/tenants.go: the isolation case of one table, of two tenants A and B. The
-- database is a parameter: a state, what a statement answers in the scope of a tenant, and when a
-- transaction cannot be opened or committed. A transaction that ends in an error leaves the state as
-- it was when it began, and an error of opening or committing one is none of a missing privilege.
pub mod Probes
pub mod Server
pub mod Enforced
mod Tests
use mascotapp.Base.{
  ℕ, zero, suc, ◌+◌, ◌≡◌, Bool, true, false, not, ◌&&◌, ◌||◌, List, [], ◌∷◌, ◌++◌, Option, none,
  some, Bytes, codes, ◌=ᵇ◌, ◌==◌, is_empty, if◌then◌else◌,
}
use mascotapp.Base.Results.{Result, pass, fail}
use mascotapp.Base.Sorting.{sort_strings}
use mascotapp.Rls.{lookup, sorted_keys}

-- RowKey: a map from columns to values.
abbrev pub RowKey : Type 0
RowKey = List (Bytes × Bytes)

-- The loop of RowKey.where over the sorted columns: the predicates, a column and the number of its
-- placeholder, and the arguments. Every column is a key of the map.
unfoldable pub where_from : RowKey → ℕ → List Bytes → List (Bytes × ℕ) × List Bytes
unfolding lookup
where_from k position [] = ([], [])
where_from k position (col ∷ cols) =
    let (predicates, args) = where_from k (suc position) cols in
    let value : Bytes = elim (lookup col k) [ none ↦ [] | some v ↦ v ] in
    ((col, position) ∷ predicates, value ∷ args)

-- RowKey.where
unfoldable pub where_clause : RowKey → ℕ → List (Bytes × ℕ) × List Bytes
unfolding where_from sorted_keys
where_clause k start_at = where_from k start_at (sorted_keys k)

-- The statements of the probes.
pub data Statement : Type 0 where
  count_all delete_all : Bytes → Statement
  count_where delete_where : Bytes → List (Bytes × ℕ) × List Bytes → Statement
  touch_where : Bytes → Bytes → List (Bytes × ℕ) × List Bytes → Statement

-- A pgconn.PgError with its code, or another error.
pub data SqlError : Type 0 where
  coded : Bytes → SqlError
  uncoded : SqlError

-- sqlstateInsufficientPrivilege
unfoldable pub is_missing_privilege : SqlError → Bool
is_missing_privilege (coded code) = code =ᵇ codes "42501"
is_missing_privilege uncoded = false

pub data Verb : Type 0 where
  writing deleting : Verb

-- The errors of Check, with the numbers that they show.
pub data CaseError : Type 0 where
  incomplete_case empty_key no_transaction rolled_back_probe : CaseError
  fixture_failed seeding_failed reading_failed counting_failed wipe_failed : CaseError
  wipe_refused_otherwise forged forgery_refused_otherwise rereading_failed : CaseError
  can_read wipe_accepted lost : ℕ → CaseError
  savepoint_failed probe_failed refused_otherwise : Verb → CaseError
  accepted can_write : Verb → ℕ → CaseError
  wiped : ℕ → ℕ → CaseError

-- What the database does. The scope is the tenant's id.
pub record Database (W : Type 0) : Type 0 where
  pub run : Bytes → Statement → W → Result SqlError ℕ × W
  pub opens : Bytes → W → Bool
  pub commits : Bytes → W → Bool
  pub savepoint : W → Bool

-- TenantTable, whose Insert is given the scope that it runs in, and whose Fixture is `none` for nil.
pub record TenantTable (W : Type 0) : Type 0 where
  pub name : Bytes
  pub tenant_column : Bytes
  pub insert : Option (Bytes → Bytes → W → Result SqlError RowKey × W)
  pub fixture : Option (W → Bool × W)
  pub append_only : Bool
  pub touch_column : Bytes
  pub no_delete_grant : Bool

module _ {W : Type 0} where
  -- TenantTable.tenantColumn
  unfoldable pub tenant_column_of : TenantTable W → Bytes
  tenant_column_of tt' =
      if is_empty tt'.tenant_column then codes "shelter_id" else tt'.tenant_column

  -- TenantTable.touchColumn
  unfoldable pub touch_column_of : TenantTable W → Bytes
  unfolding tenant_column_of
  touch_column_of tt' = if is_empty tt'.touch_column then tenant_column_of tt' else tt'.touch_column

  -- TenantTable.deleteIsRefused
  unfoldable pub delete_is_refused : TenantTable W → Bool
  delete_is_refused tt' = tt'.append_only || tt'.no_delete_grant

abbrev pub Tx : Type 0 → Type 0 → Type 0
Tx W A = W → Result CaseError A × W

abbrev pub go_on : {W A B : Type 0} → (A → Tx W B) → Result CaseError A × W → Result CaseError B × W
go_on k (fail e, w) = (fail e, w)
go_on k (pass a, w) = k a w

infixl 5 ◌>>=◌ ◌>>◌
abbrev pub ◌>>=◌ : {W A B : Type 0} → Tx W A → (A → Tx W B) → Tx W B
◌>>=◌ m k w = go_on k (m w)

abbrev pub ◌>>◌ : {W B : Type 0} → Tx W (Unit {0}) → Tx W B → Tx W B
m >> k = m >>= λ _. k

abbrev pub stop : {W A : Type 0} → CaseError → Tx W A
stop e w = (fail e, w)

abbrev pub done : {W : Type 0} → Tx W (Unit {0})
done w = (pass tt, w)

-- An answer of the database, with the error that the code wraps another one in.
abbrev pub answer : {W A : Type 0} → CaseError → Result SqlError A × W → Result CaseError A × W
answer e (pass a, w) = (pass a, w)
answer e (fail s, w) = (fail e, w)

module _ {W : Type 0} (db : Database W) where
  -- The end of db.WithTenant.
  unfoldable pub settle : {A : Type 0} → Bytes → W → Result CaseError A × W → Result CaseError A × W
  settle scope before (fail e, w) = (fail e, before)
  settle scope before (pass a, w) =
      if db.commits scope w then (pass a, w) else (fail no_transaction, before)

  -- db.WithTenant
  unfoldable pub in_scope : {A : Type 0} → Bytes → Tx W A → Tx W A
  unfolding settle
  in_scope scope fn w = if db.opens scope w then settle scope w (fn w) else (fail no_transaction, w)

  -- TenantTable.expectRefusal, on what the statement answered.
  unfoldable pub expect_refusal : Verb → Result SqlError ℕ → Result CaseError (Unit {0})
  unfolding is_missing_privilege
  expect_refusal verb (pass n) = fail (accepted verb n)
  expect_refusal verb (fail e) =
      if is_missing_privilege e then pass tt else fail (refused_otherwise verb)

  abbrev pub affects_none : Verb → ℕ → Tx W (Unit {0})
  affects_none verb n = if n == 0 then done else stop (can_write verb n)

  -- TenantTable.probeWrite. The savepoint is always rolled back.
  unfoldable pub probe_write : Bytes → Verb → Bool → Statement → Tx W (Unit {0})
  unfolding expect_refusal
  probe_write scope verb true statement w =
      if db.savepoint w
      then (expect_refusal verb (db.run scope statement w).0, w)
      else (fail (savepoint_failed verb), w)
  probe_write scope verb false statement w =
      go_on (affects_none verb) (answer (probe_failed verb) (db.run scope statement w))
