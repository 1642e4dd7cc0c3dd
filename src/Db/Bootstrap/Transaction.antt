-- ===== src/Db/Bootstrap/Transaction.antt =====
-- The transaction of SetRolePassword of apps/api/internal/db/bootstrap.go, one statement at a time.
use mascotapp.Base.{
  ◌≡◌, ◌≢◌, inl, inr, refl, ap, sym, ◌∙◌, true, List, [], ◌∷◌, Option, none, some, Bytes, ◌=ᵇ◌,
  =ᵇ_iff, is_some, Bool-cases, arith,
}
use mascotapp.Base.Results.{Result, pass, fail}
use mascotapp.Db.State.{current}
use mascotapp.Db.Tenant.{set_config, forget_local}
use mascotapp.Db.Atomicity.{SameSetting, forget_local-SameSetting}
use mascotapp.Db.Bootstrap.Password.{
  RoleServer, SetError, password_of, alter_role, request, set_bootstrap_role,
  set_bootstrap_password, apply_role_password, commit, set_in_transaction, Action, go_on, ◌>>◌,
  tick, naming, staging, applying, committing,
}

password_of-alter_role :
    (role password : Bytes) (roles : List (Bytes × Option Bytes))
    → is_some (password_of role roles) ≡ true
    → password_of role (alter_role role password roles) ≡ some (some password)
unfolding password_of alter_role
password_of-alter_role role password [] h = ground arith
password_of-alter_role role password ((name, old) ∷ roles) h =
    ground (arith, password_of-alter_role role password roles)

password_of-other :
    (role password other : Bytes) (roles : List (Bytes × Option Bytes))
    → other ≢ role
    → password_of other (alter_role role password roles) ≡ password_of other roles
unfolding password_of alter_role
password_of-other role password other [] ne = refl
password_of-other role password other ((name, old) ∷ roles) ne = elim (Bool-cases (name =ᵇ role)) [
  | inl same ↦
      let is_role = (=ᵇ_iff name role).0 same in
      elim (Bool-cases (name =ᵇ other)) [
        | inl e ↦ absurd (ne (sym ((=ᵇ_iff name other).0 e) ∙ is_role))
        | inr apart ↦ ground arith
      ]
  | inr differs ↦ ground (arith, password_of-other role password other roles ne)
]

-- Neither setting has a value for a transaction alone, and nullif tells no difference from before.
abbrev pub SameSettings : RoleServer → RoleServer → Type 0
SameSettings s t =
    SameSetting s.role_setting t.role_setting × SameSetting s.password_setting t.password_setting

-- The role has the password, and the other roles are as they were.
abbrev pub TookEffect : Bytes → Bytes → RoleServer → RoleServer → Type 0
TookEffect role password s t =
    (password_of role t.passwords ≡ some (some password))
    × ((other : Bytes)
        → other ≢ role
        → password_of other t.passwords ≡ password_of other s.passwords)
    × SameSettings s t

abbrev pub Tidy : RoleServer → Type 0
Tidy s = (s.role_setting.local ≡ none) × (s.password_setting.local ≡ none)

request-pass :
    (stage : SetError) (effect : Action) (s : RoleServer)
    → (request stage effect s).0 ≡ pass tt
    → request stage effect s ≡ effect (tick s)
unfolding request
request-pass stage effect s h = ground arith

>>-pass :
    (m k : Action) (s : RoleServer)
    → ((m >> k) s).0 ≡ pass tt
    → ((m s).0 ≡ pass tt) × ((m >> k) s ≡ k (m s).1)
>>-pass m k s h = go_on-pass k (m s) h
  where
    go_on-pass :
        (k : Action) (r : Result SetError (Unit {0}) × RoleServer)
        → (go_on k r).0 ≡ pass tt
        → (r.0 ≡ pass tt) × (go_on k r ≡ k r.1)
    go_on-pass k (pass a, s) h = (refl, refl)
    go_on-pass k (fail e, s) h = absurd (ground arith)

apply-pass :
    (s : RoleServer) (role password : Bytes)
    → current s.role_setting ≡ some role
    → current s.password_setting ≡ some password
    → (apply_role_password s).0 ≡ pass tt
    → (is_some (password_of role s.passwords) ≡ true)
      × (apply_role_password s
          ≡ (pass tt, record s { passwords = alter_role role password s.passwords }))
unfolding apply_role_password
apply-pass s role password r p h = elim (Bool-cases (is_some (password_of role s.passwords))) [
  | inl there ↦ (there, ground arith)
  | inr absent ↦ absurd (ground arith)
]

-- The states of the transaction.
abbrev pub named : Bytes → RoleServer → RoleServer
named role s = record (tick s) { role_setting = set_config true role s.role_setting }

abbrev pub staged : Bytes → RoleServer → RoleServer
staged password s = record (tick s) {
  password_setting = set_config true password s.password_setting;
}

abbrev pub applied : Bytes → Bytes → RoleServer → RoleServer
applied role password s = record (tick s) { passwords = alter_role role password s.passwords }

abbrev pub finished : RoleServer → RoleServer
finished s = record (tick s) {
  role_setting = forget_local s.role_setting;
  password_setting = forget_local s.password_setting;
}

abbrev pub last_state : Bytes → Bytes → RoleServer → RoleServer
last_state role password s = finished (applied role password (staged password (named role s)))

pub transaction_run :
    (role password : Bytes) (s : RoleServer)
    → (set_in_transaction role password s).0 ≡ pass tt
    → (is_some (password_of role s.passwords) ≡ true)
      × (set_in_transaction role password s ≡ (pass tt, last_state role password s))
unfolding set_in_transaction set_bootstrap_role set_bootstrap_password commit
transaction_run role password s h =
    let name = request naming (set_bootstrap_role role) in
    let stage = request staging (set_bootstrap_password password) in
    let apply = request applying apply_role_password in
    let finish = request committing commit in
    let (h3, e3) = >>-pass (name >> stage >> apply) finish s h in
    let (h2, e2) = >>-pass (name >> stage) apply s h3 in
    let (h1, e1) = >>-pass name stage s h2 in
    let f1 : name s ≡ (pass tt, named role s) =
      request-pass naming (set_bootstrap_role role) s h1 in
    let g1 : (name >> stage) s ≡ stage (named role s) = e1 ∙ ap (λ r. stage r.1) f1 in
    let f2 : stage (named role s) ≡ (pass tt, staged password (named role s)) =
      request-pass staging (set_bootstrap_password password) (named role s)
        (ap (λ r. r.0) (sym g1) ∙ h2) in
    let s2 = staged password (named role s) in
    let g2 : (name >> stage >> apply) s ≡ apply s2 = e2 ∙ ap (λ r. apply r.1) (g1 ∙ f2) in
    let h4 : (apply s2).0 ≡ pass tt = ap (λ r. r.0) (sym g2) ∙ h3 in
    let f3 = request-pass applying apply_role_password s2 h4 in
    let (there, f4) = apply-pass (tick s2) role password refl refl (ap (λ r. r.0) (sym f3) ∙ h4) in
    let g3 : (name >> stage >> apply >> finish) s ≡ finish (applied role password s2) =
      e3 ∙ ap (λ r. finish r.1) (g2 ∙ f3 ∙ f4) in
    (
      there,
      g3 ∙ request-pass committing commit (applied role password s2) (ap (λ r. r.0) (sym g3) ∙ h),
    )

pub last_state-TookEffect :
    (role password : Bytes) (s : RoleServer)
    → Tidy s
    → is_some (password_of role s.passwords) ≡ true
    → TookEffect role password s (last_state role password s)
last_state-TookEffect role password s tidy there = (
  password_of-alter_role role password s.passwords there,
  (λ other ne. password_of-other role password other s.passwords ne),
  (
    forget_local-SameSetting s.role_setting (set_config true role s.role_setting) refl,
    forget_local-SameSetting s.password_setting (set_config true password s.password_setting) refl,
  ),
)

pub request-quiet :
    (stage : SetError) (effect : Action) (s : RoleServer)
    → s.faults ≡ []
    → request stage effect s ≡ effect (tick s)
unfolding request
request-quiet stage effect s h = ground arith

pub transaction_quiet :
    (role password : Bytes) (s : RoleServer)
    → s.faults ≡ []
    → is_some (password_of role s.passwords) ≡ true
    → (set_in_transaction role password s).0 ≡ pass tt
unfolding set_in_transaction set_bootstrap_role set_bootstrap_password apply_role_password commit
    request
transaction_quiet role password s quiet there = ground arith
