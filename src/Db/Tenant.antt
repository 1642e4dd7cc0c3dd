-- ===== src/Db/Tenant.antt =====
-- apps/api/internal/db/tenant.go: WithTenant and WithPublic. A rollback gives back the tables of the
-- moment before the transaction and takes what it set out of the settings; a commit that reports an error did not happen.
use mascotapp.Base.{
  Bool, true, false, [], Option, none, some, Bytes, ◌=ᵇ◌, if◌then◌else◌, replicate,
}
use mascotapp.Errors.{beginning, setting_scope, committing, no_tenant}
use mascotapp.Db.State.{
  State, Setting, began, began_read_only, set_tenant, committed, rolled_back, Outcome, ok, err,
  panicked, M, current, pure, throw, ◌>>=◌, ◌>>◌, statement, note,
}

-- uuid.Nil
abbrev pub nil_uuid : Bytes
nil_uuid = replicate 16 0

-- Beginner.Begin
unfoldable pub begin : M (Unit {0})
begin = do statement beginning; (λ s. (ok tt, note began s))

-- TxBeginner.BeginTx with AccessMode ReadOnly
unfoldable pub begin_read_only : M (Unit {0})
begin_read_only = do
  statement beginning
  (λ s. (ok tt, note began_read_only (record s { read_only = true })))

-- set_config(name, value, is_local)
abbrev pub set_config : Bool → Bytes → Setting → Setting
set_config true v g = record g { local = some v }
set_config false v g = record { session = some v; local = none }

-- The session's value of a setting once a transaction is over in which it had this own value: one that
-- had none is then the empty text, not unset.
unfoldable pub emptied : Option Bytes → Option Bytes → Option Bytes
emptied none none = none
emptied none (some v) = some []
emptied (some w) own = some w

-- What COMMIT leaves of a setting.
abbrev pub forget_local : Setting → Setting
forget_local g = record { session = emptied g.session g.local; local = none }

-- What ROLLBACK leaves of a setting that was `before` when the transaction began.
abbrev pub reverted : Setting → Setting → Setting
reverted before g = record before { session = emptied before.session (current g) }

-- tx.Commit: what was set for the transaction alone is gone.
unfoldable pub commit : M (Unit {0})
unfolding emptied
commit = do
  statement committing
  (λ s. (
    ok tt,
    note committed (record s {
      shelter_setting = forget_local s.shelter_setting;
      user_setting = forget_local s.user_setting;
      read_only = false;
    }),
  ))

-- tx.Rollback. `before` is the state right after Begin; a read-only mode ends with the transaction.
unfoldable pub rollback : State → State → State
unfolding emptied
rollback before s = note rolled_back (record s {
  tables = before.tables;
  shelter_setting = reverted before.shelter_setting s.shelter_setting;
  user_setting = reverted before.user_setting s.user_setting;
  read_only = false;
})

-- The deferred function: it rolls back on an error and on a panic, and panics again.
unfoldable pub close : {A : Type 0} → State → Outcome A × State → Outcome A × State
unfolding rollback
close before (ok a, s) = (ok a, s)
close before (err e, s) = (err e, rollback before s)
close before (panicked p, s) = (panicked p, rollback before s)

-- setScopeSQL
unfoldable pub set_tenant_scope : Bytes → M (Unit {0})
set_tenant_scope shelter = do
  statement setting_scope
  (λ s. (
    ok tt,
    note set_tenant (record s { shelter_setting = set_config true shelter s.shelter_setting }),
  ))

-- What WithTenant and WithAuthUser do between Begin and their return: the deferred function, the
-- scope, the callback and Commit.
unfoldable pub scoped : {A : Type 0} → M (Unit {0}) → M A → M A
unfolding close commit
scoped set_scope fn before = close before ((do set_scope; a ← fn; commit; pure a) before)

-- WithTenant. The value is what the callback leaves in the variables that it closes over.
unfoldable pub with_tenant : {A : Type 0} → Bytes → M A → M A
unfolding begin scoped set_tenant_scope
with_tenant shelter fn =
    if shelter =ᵇ nil_uuid
    then throw no_tenant
    else (do begin; scoped (set_tenant_scope shelter) fn)

-- WithPublic, which sets no scope.
unfoldable pub with_public : {A : Type 0} → M A → M A
unfolding begin_read_only scoped
with_public fn = do begin_read_only; scoped (pure tt) fn
