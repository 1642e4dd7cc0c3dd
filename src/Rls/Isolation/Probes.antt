-- ===== src/Rls/Isolation/Probes.antt =====
-- The four probes of tenants.go, and TenantTable.Check that runs them.
use mascotapp.Base.{
  ℕ, Bool, true, false, not, [], ◌∷◌, Option, none, some, Bytes, ◌==◌, is_empty, if◌then◌else◌,
}
use mascotapp.Base.Results.{Result, pass, fail}
use mascotapp.Rls.Isolation.{
  RowKey, where_clause, count_all, delete_all, count_where, delete_where, touch_where, SqlError,
  is_missing_privilege, writing, deleting, CaseError, incomplete_case, empty_key, no_transaction,
  rolled_back_probe, fixture_failed, seeding_failed, reading_failed, counting_failed, wipe_failed,
  wipe_refused_otherwise, forged, forgery_refused_otherwise, rereading_failed, can_read,
  wipe_accepted, lost, wiped, Database, TenantTable, touch_column_of, delete_is_refused, Tx, ◌>>=◌,
  ◌>>◌, stop, done, answer, in_scope, probe_write,
}

-- len(key) == 0
abbrev pub is_none_of : RowKey → Bool
is_none_of [] = true
is_none_of (x ∷ xs) = false

abbrev pub is_rollback : CaseError → Bool
is_rollback rolled_back_probe = true
is_rollback _ = false

-- A test that a number is the one that is wanted.
abbrev pub want : {W : Type 0} → Bool → CaseError → Tx W (Unit {0})
want fine e = if fine then done else stop e

-- What the callback of checkTenantBCannotWipeTheTable makes of the answer to DELETE, where it is to
-- be refused.
unfoldable pub wipe_refusal : Result SqlError ℕ → CaseError
unfolding is_missing_privilege
wipe_refusal (pass n) = wipe_accepted n
wipe_refusal (fail e) = if is_missing_privilege e then rolled_back_probe else wipe_refused_otherwise

-- The error of that callback, which is never nil, so that its transaction is rolled back, and the
-- variables that it leaves behind: the rows seen and the rows deleted.
unfoldable pub wipe_verdict : Result SqlError ℕ → Bool → Result SqlError ℕ → CaseError × ℕ × ℕ
unfolding wipe_refusal
wipe_verdict (fail e) refused deleted = (counting_failed, 0, 0)
wipe_verdict (pass visible) true deleted = (wipe_refusal deleted, visible, 0)
wipe_verdict (pass visible) false (fail e) = (wipe_failed, visible, 0)
wipe_verdict (pass visible) false (pass affected) = (rolled_back_probe, visible, affected)

-- What checkTenantBCannotWipeTheTable does after its transaction.
unfoldable pub after_wipe : {W : Type 0} → Bool → CaseError × ℕ × ℕ → Tx W (Unit {0})
after_wipe refused (e, visible, affected) =
    if is_rollback e
    then if refused then done else want (affected == visible) (wiped affected visible)
    else stop e

-- What checkTenantBCannotForgeOwnership makes of Insert's answer, and of whether the transaction that
-- it succeeded in is committed.
unfoldable pub forge_verdict :
    {W : Type 0} → W → Bool → Result SqlError RowKey × W → Result CaseError (Unit {0}) × W
unfolding is_missing_privilege
forge_verdict before true (pass key, w) = (fail forged, w)
forge_verdict before false (pass key, w) = (fail forgery_refused_otherwise, before)
forge_verdict before kept (fail e, w) =
    if is_missing_privilege e then (pass tt, before) else (fail forgery_refused_otherwise, before)

-- The Fixture, if there is one.
unfoldable pub run_fixture : {W : Type 0} → Option (W → Bool × W) → Tx W (Unit {0})
run_fixture none w = (pass tt, w)
run_fixture (some fixture) w = want (fixture w).0 fixture_failed (fixture w).1

abbrev pub as_seeding : {W A : Type 0} → Result CaseError A × W → Result CaseError A × W
as_seeding (pass a, w) = (pass a, w)
as_seeding (fail e, w) = (fail seeding_failed, w)

module _ {W : Type 0} (db : Database W) (a b : Bytes) (case : TenantTable W) where
  -- The callback of checkTenantBIsBlind.
  unfoldable pub blind_in : RowKey → Tx W (Unit {0})
  unfolding probe_write
  blind_in key =
      (λ w. answer reading_failed (db.run b (count_where case.name (where_clause key 1)) w))
      >>= λ visible.
          want (visible == 0) (can_read visible)
          >> probe_write db b writing case.append_only
              (touch_where case.name (touch_column_of case) (where_clause key 1))
          >> probe_write db b deleting (delete_is_refused case)
              (delete_where case.name (where_clause key 1))

  -- TenantTable.checkTenantBIsBlind
  unfoldable pub check_tenant_b_is_blind : RowKey → Tx W (Unit {0})
  unfolding blind_in in_scope
  check_tenant_b_is_blind key = in_scope db b (blind_in key)

  -- TenantTable.checkTenantBCannotWipeTheTable
  unfoldable pub check_tenant_b_cannot_wipe_the_table : Tx W (Unit {0})
  unfolding wipe_verdict after_wipe
  check_tenant_b_cannot_wipe_the_table w =
      let seen = db.run b (count_all case.name) w in
      let deleted = db.run b (delete_all case.name) seen.1 in
      let refused = delete_is_refused case in
      if db.opens b w
      then after_wipe refused (wipe_verdict seen.0 refused deleted.0) w
      else (fail no_transaction, w)

  -- TenantTable.checkTenantBCannotForgeOwnership
  unfoldable pub check_tenant_b_cannot_forge_ownership :
      (Bytes → Bytes → W → Result SqlError RowKey × W) → Tx W (Unit {0})
  unfolding forge_verdict
  check_tenant_b_cannot_forge_ownership insert w =
      let forgery = insert b a w in
      if db.opens b w
      then forge_verdict w (db.commits b forgery.1) forgery
      else (fail forgery_refused_otherwise, w)

  -- The callback of checkTenantAStillSeesItsRow.
  unfoldable pub still_sees_in : RowKey → Tx W (Unit {0})
  still_sees_in key =
      (λ w. answer rereading_failed (db.run a (count_where case.name (where_clause key 1)) w))
      >>= λ found. want (found == 1) (lost found)

  -- TenantTable.checkTenantAStillSeesItsRow
  unfoldable pub check_tenant_a_still_sees_its_row : RowKey → Tx W (Unit {0})
  unfolding still_sees_in in_scope
  check_tenant_a_still_sees_its_row key = in_scope db a (still_sees_in key)

  -- The first transaction of Check, which seeds A's row. Its error is wrapped in one message, whether
  -- Insert or the transaction failed.
  unfoldable pub seed : (Bytes → Bytes → W → Result SqlError RowKey × W) → Tx W RowKey
  unfolding in_scope
  seed insert w = as_seeding (in_scope db a (λ v. answer seeding_failed (insert a a v)) w)

  -- Check from the call of Insert on.
  unfoldable pub check_seeded : (Bytes → Bytes → W → Result SqlError RowKey × W) → Tx W (Unit {0})
  unfolding seed check_tenant_b_is_blind check_tenant_b_cannot_wipe_the_table
      check_tenant_b_cannot_forge_ownership check_tenant_a_still_sees_its_row
  check_seeded insert = seed insert >>= λ key.
      want (not (is_none_of key)) empty_key
      >> (check_tenant_b_is_blind key
          >> (check_tenant_b_cannot_wipe_the_table
              >> (check_tenant_b_cannot_forge_ownership insert
                  >> check_tenant_a_still_sees_its_row key)))

  -- TenantTable.Check, given the Insert of the case.
  unfoldable pub check_insert :
      Option (Bytes → Bytes → W → Result SqlError RowKey × W) → Tx W (Unit {0})
  unfolding run_fixture check_seeded
  check_insert none w = (fail incomplete_case, w)
  check_insert (some insert) w =
      if is_empty case.name
      then (fail incomplete_case, w)
      else (run_fixture case.fixture >> check_seeded insert) w

  -- TenantTable.Check
  unfoldable pub check : Tx W (Unit {0})
  unfolding check_insert
  check = check_insert case.insert
