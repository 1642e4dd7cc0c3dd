-- ===== src/Db/Bootstrap/Set.antt =====
-- What SetRolePassword of apps/api/internal/db/bootstrap.go leaves behind.
use mascotapp.Base.{
  ◌≡◌, ◌≢◌, ◌⊎◌, inl, inr, refl, ap, sym, subst, ◌∙◌, true, [], none, Bytes, is_some, trim_space,
  Bool-cases, arith,
}
use mascotapp.Base.Results.{Result, pass, fail, Result-cases}
use mascotapp.Db.Atomicity.{reverted-SameSetting}
use mascotapp.Db.Bootstrap.{validate_role_credentials}
use mascotapp.Db.Bootstrap.Roles.{IsRoleName, validate_role_credentials-pass_iff}
use mascotapp.Db.Bootstrap.Password.{
  RoleServer, SetError, password_of, request, deferred_rollback, set_in_transaction,
  set_role_password, next_fails, tick, beginning,
}
use mascotapp.Db.Bootstrap.Transaction.{
  SameSettings, TookEffect, Tidy, last_state, transaction_run, last_state-TookEffect, request-quiet,
  transaction_quiet,
}

-- What is left of the server where SetRolePassword returns an error.
abbrev pub IsUntouched : RoleServer → RoleServer → Type 0
IsUntouched s t = (t.passwords ≡ s.passwords) × SameSettings s t

abbrev AllOrNothing : Bytes → Bytes → RoleServer → Result SetError (Unit {0}) × RoleServer → Type 0
AllOrNothing role password s r =
    ((r.0 ≡ pass tt)
      × IsRoleName role
      × (trim_space password ≢ [])
      × TookEffect role password s r.1)
    ⊎ ((r.0 ≢ pass tt) × IsUntouched s r.1)

ended :
    (role password : Bytes) (s : RoleServer) (r : Result SetError (Unit {0}) × RoleServer)
    → Tidy s
    → IsRoleName role × (trim_space password ≢ [])
    → (r.0 ≡ pass tt → TookEffect role password s r.1)
    → AllOrNothing role password s (deferred_rollback (tick s) r)
unfolding deferred_rollback
ended role password s (pass a, t) tidy (own, real) set = inl (refl, own, real, set refl)
ended role password s (fail e, t) (no_role, no_password) valid set = inr (
  (λ h. ground arith),
  (
    refl,
    (
      reverted-SameSetting s.role_setting t.role_setting no_role,
      reverted-SameSetting s.password_setting t.password_setting no_password,
    ),
  ),
)

-- A server of which nothing has changed but the requests that it still refuses.
kept : (s : RoleServer) → Tidy s → IsUntouched s (tick s)
kept s (no_role, no_password) = (refl, ((no_role, refl), (no_password, refl)))

valid_run :
    (role password : Bytes) (s : RoleServer)
    → Tidy s
    → IsRoleName role × (trim_space password ≢ [])
    → AllOrNothing role password s (
        request beginning
          (λ before. deferred_rollback before (set_in_transaction role password before))
          s)
valid_run role password s tidy valid = elim (Bool-cases (next_fails s)) [
  | inl broken ↦
      let e : request beginning
            (λ before. deferred_rollback before (set_in_transaction role password before)) s
          ≡ (fail beginning, tick s) =
        unfold request in ground arith in
      subst (AllOrNothing role password s) (sym e) (inr ((λ h. ground arith), kept s tidy))
  | inr fine ↦
      let e : request beginning
            (λ before. deferred_rollback before (set_in_transaction role password before)) s
          ≡ deferred_rollback (tick s) (set_in_transaction role password (tick s)) =
        unfold request in ground arith in
      subst (AllOrNothing role password s) (sym e) (
        ended role password s (set_in_transaction role password (tick s)) tidy valid (λ h.
          let (there, run) = transaction_run role password (tick s) h in
          subst (λ r. TookEffect role password s r.1) (sym run)
            (last_state-TookEffect role password (tick s) tidy there)))
]

-- On a connection whose two settings have no value for a transaction alone: SetRolePassword returns
-- nil only for a role name of the application and a password that is not blank; that role then has the
-- password and every other role is as it was. On an error, of the credentials or of any request, no
-- password has changed. Either way the settings have no such value afterwards, and nullif reads of both
-- what it read before.
pub set_role_password-all_or_nothing :
    (role password : Bytes) (s : RoleServer)
    → s.role_setting.local ≡ none
    → s.password_setting.local ≡ none
    → (((set_role_password role password s).0 ≡ pass tt)
        × IsRoleName role
        × (trim_space password ≢ [])
        × TookEffect role password s (set_role_password role password s).1)
      ⊎ (((set_role_password role password s).0 ≢ pass tt)
          × IsUntouched s (set_role_password role password s).1)
unfolding set_role_password
set_role_password-all_or_nothing role password s no_role no_password =
    elim (Result-cases (validate_role_credentials role password)) [
      | inr (e, bad) ↦ inr (
        (λ h. ground arith),
        (
          ground arith,
          ((ground (arith, no_role), ground arith), (ground (arith, no_password), ground arith)),
        ),
      )
      | inl (a, fine) ↦
          let valid = (validate_role_credentials-pass_iff role password).0 (ground arith) in
          let same : set_role_password role password s
              ≡ request beginning
                  (λ before. deferred_rollback before (set_in_transaction role password before)) s =
            ground arith in
          subst (AllOrNothing role password s) (sym same)
            (valid_run role password s (no_role, no_password) valid)
    ]

-- Where every request to the server runs, on a connection whose two settings have no value for a
-- transaction alone, SetRolePassword sets the password of a role of the application that exists, for
-- every password that is not blank, and returns nil. Every other role is as it was, the settings have no
-- such value afterwards, and nullif reads of both what it read before.
pub set_role_password-passes :
    (role password : Bytes) (s : RoleServer)
    → IsRoleName role
    → trim_space password ≢ []
    → is_some (password_of role s.passwords) ≡ true
    → s.faults ≡ []
    → s.role_setting.local ≡ none
    → s.password_setting.local ≡ none
    → ((set_role_password role password s).0 ≡ pass tt)
      × TookEffect role password s (set_role_password role password s).1
unfolding set_role_password
set_role_password-passes role password s own real there quiet no_role no_password =
    let fine = (validate_role_credentials-pass_iff role password).1 (own, real) in
    let e1 =
      request-quiet beginning
        (λ before. deferred_rollback before (set_in_transaction role password before)) s quiet in
    let passes = transaction_quiet role password (tick s) (ground arith) there in
    let (there', run) = transaction_run role password (tick s) passes in
    let ends : deferred_rollback (tick s) (set_in_transaction role password (tick s))
        ≡ (pass tt, last_state role password (tick s)) =
      ap (deferred_rollback (tick s)) run ∙ unfold deferred_rollback in refl in
    let whole : set_role_password role password s ≡ (pass tt, last_state role password (tick s)) =
      ground arith in
    (
      ap (λ r. r.0) whole,
      subst (λ r. TookEffect role password s r.1) (sym whole)
          (last_state-TookEffect role password (tick s) (no_role, no_password) there),
    )
