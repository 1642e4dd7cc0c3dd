-- ===== src/Db/Bootstrap/Password.antt =====
-- SetRolePassword of apps/api/internal/db/bootstrap.go: three statements in a transaction of their own.
-- The state is what they touch of the server: the passwords of the roles and the two settings.
use mascotapp.Base.{
  Bool, true, false, List, [], ◌∷◌, Option, none, some, Bytes, ◌=ᵇ◌, is_some, if◌then◌else◌,
}
use mascotapp.Base.Results.{Result, pass, fail}
use mascotapp.Db.State.{Setting, current}
use mascotapp.Db.Tenant.{set_config, forget_local, reverted}
use mascotapp.Db.Bootstrap.{RoleError, validate_role_credentials}

-- What each error of SetRolePassword is wrapped with.
pub data SetError : Type 0 where
  invalid_credentials : RoleError → SetError
  beginning naming staging applying committing : SetError

-- `faults` says of each later request to the server whether it fails; beyond its end they all run.
pub record RoleServer : Type 0 where
  pub passwords : List (Bytes × Option Bytes)
  pub role_setting : Setting
  pub password_setting : Setting
  pub faults : List Bool

-- The password of a role, if there is that role.
unfoldable pub password_of : Bytes → List (Bytes × Option Bytes) → Option (Option Bytes)
password_of role [] = none
password_of role ((name, password) ∷ roles) =
    let later = password_of role roles in if name =ᵇ role then some password else later

unfoldable pub alter_role :
    Bytes → Bytes → List (Bytes × Option Bytes) → List (Bytes × Option Bytes)
alter_role role password [] = []
alter_role role password ((name, old) ∷ roles) =
    let rest = alter_role role password roles in
    if name =ᵇ role then (name, some password) ∷ roles else (name, old) ∷ rest

abbrev pub Action : Type 0
Action = RoleServer → Result SetError (Unit {0}) × RoleServer

abbrev pub go_on :
    Action → Result SetError (Unit {0}) × RoleServer → Result SetError (Unit {0}) × RoleServer
go_on k (fail e, s) = (fail e, s)
go_on k (pass a, s) = k s

infixl 5 ◌>>◌
abbrev pub ◌>>◌ : Action → Action → Action
◌>>◌ m k s = go_on k (m s)

abbrev pub next_fails : RoleServer → Bool
next_fails s = elim s.faults [ [] ↦ false | b ∷ rest ↦ b ]

abbrev pub tick : RoleServer → RoleServer
tick s = record s { faults = elim s.faults [ [] ↦ [] | b ∷ rest ↦ rest ] }

-- One request to the server.
unfoldable pub request : SetError → Action → Action
request stage effect s = if next_fails s then (fail stage, tick s) else effect (tick s)

-- setBootstrapRoleSQL
unfoldable pub set_bootstrap_role : Bytes → Action
set_bootstrap_role role s =
    (pass tt, record s { role_setting = set_config true role s.role_setting })

-- setBootstrapPasswordSQL
unfoldable pub set_bootstrap_password : Bytes → Action
set_bootstrap_password password s =
    (pass tt, record s { password_setting = set_config true password s.password_setting })

-- applyRolePasswordSQL, which the server refuses for a setting that is not set and for no role.
unfoldable pub apply_role_password : Action
apply_role_password s = elim (current s.role_setting) [
  | none ↦ (fail applying, s)
  | some role ↦ elim (current s.password_setting) [
    | none ↦ (fail applying, s)
    | some password ↦
        if is_some (password_of role s.passwords)
        then (pass tt, record s { passwords = alter_role role password s.passwords })
        else (fail applying, s)
  ]
]

-- tx.Commit: what was set for the transaction alone is gone.
unfoldable pub commit : Action
commit s = (
  pass tt,
  record s {
    role_setting = forget_local s.role_setting;
    password_setting = forget_local s.password_setting;
  },
)

-- The deferred tx.Rollback, which does nothing once the transaction is committed. `before` is the state
-- right after BeginTx.
unfoldable pub deferred_rollback :
    RoleServer → Result SetError (Unit {0}) × RoleServer → Result SetError (Unit {0}) × RoleServer
deferred_rollback before (pass a, s) = (pass a, s)
deferred_rollback before (fail e, s) = (
  fail e,
  record before {
    role_setting = reverted before.role_setting s.role_setting;
    password_setting = reverted before.password_setting s.password_setting;
    faults = s.faults;
  },
)

-- The statements between BeginTx and the return.
unfoldable pub set_in_transaction : Bytes → Bytes → Action
unfolding request set_bootstrap_role set_bootstrap_password apply_role_password commit
set_in_transaction role password =
    request naming (set_bootstrap_role role)
    >> request staging (set_bootstrap_password password)
    >> request applying apply_role_password
    >> request committing commit

-- SetRolePassword
unfoldable pub set_role_password : Bytes → Bytes → Action
unfolding request deferred_rollback
set_role_password role password s = elim (validate_role_credentials role password) [
  | fail e ↦ (fail (invalid_credentials e), s)
  | pass a ↦
      request beginning
        (λ before. deferred_rollback before (set_in_transaction role password before)) s
]
