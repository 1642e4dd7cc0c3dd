-- ===== src/Db/Atomicity.antt =====
-- What the transaction wrappers of apps/api/internal/db promise: all or nothing, and a scope that
-- lives as long as the transaction.
use mascotapp.Base.{
  ◌≡◌, ◌⊎◌, ◌≢◌, ◌∷◌, [], some, none, Option, refl, ap, ◌∙◌, Bytes, ℕ, arith, =ᵇ_iff,
}
use mascotapp.Db.State.{
  State, Setting, committed, rolled_back, current, nullif, Outcome, ok, err, panicked, M, statement,
}
use mascotapp.Db.Tenant.{
  nil_uuid, emptied, forget_local, reverted, begin, set_tenant_scope, with_tenant, with_public,
}
use mascotapp.Db.Auth.{set_auth_scope, with_auth_user, with_auth_lookup}

abbrev pub IsOk : {A : Type 0} → Outcome A → Type 0
IsOk (ok a) = Unit
IsOk (err e) = ⊥
IsOk (panicked p) = ⊥

module _ {A : Type 0} (fn : M A) (s : State) where
  -- WithTenant, WithPublic, WithAuthUser and WithAuthLookup return a value, or they leave the tables
  -- as they were, whatever the callback wrote and wherever it stopped.
  pub with-tables :
      (id : Bytes)
      → (IsOk (with_tenant id fn s).0 ⊎ ((with_tenant id fn s).1.tables ≡ s.tables))
        × (IsOk (with_public fn s).0 ⊎ ((with_public fn s).1.tables ≡ s.tables))
        × (IsOk (with_auth_user id fn s).0 ⊎ ((with_auth_user id fn s).1.tables ≡ s.tables))
        × (IsOk (with_auth_lookup fn s).0 ⊎ ((with_auth_lookup fn s).1.tables ≡ s.tables))
  unfolding statement with_tenant with_public with_auth_user with_auth_lookup
  with-tables id = (ground arith, ground arith, ground arith, ground arith)

  -- A value comes back from WithAuthUser only if the callback returned it in a transaction whose
  -- app.user_id is the user, on the tables of the call; what it wrote is then kept, and Commit was
  -- the last request.
  pub with_auth_user-scope :
      (user : Bytes) (a : A)
      → (with_auth_user user fn s).0 ≡ ok a
      → (s' : State) × (current s'.user_setting ≡ some user)
        × (s'.tables ≡ s.tables)
        × (s'.shelter_setting ≡ s.shelter_setting)
        × ((fn s').0 ≡ ok a)
        × ((with_auth_user user fn s).1.tables ≡ (fn s').1.tables)
        × ((with_auth_user user fn s).1.calls ≡ committed ∷ (fn s').1.calls)
  unfolding statement with_auth_user
  with_auth_user-scope user a h = (
    (set_auth_scope user (begin s).1).1,
    ground arith,
    ground arith,
    ground arith,
    ground arith,
    ground arith,
    ground arith,
  )

  -- A value comes back from WithTenant only if the callback returned it in a transaction whose
  -- app.shelter_id is the shelter, on the tables of the call; what it wrote is then kept, and Commit
  -- was the last request.
  pub with_tenant-scope :
      (shelter : Bytes) (a : A)
      → (with_tenant shelter fn s).0 ≡ ok a
      → (s' : State) × (current s'.shelter_setting ≡ some shelter)
        × (s'.tables ≡ s.tables)
        × (s'.user_setting ≡ s.user_setting)
        × ((fn s').0 ≡ ok a)
        × ((with_tenant shelter fn s).1.tables ≡ (fn s').1.tables)
        × ((with_tenant shelter fn s).1.calls ≡ committed ∷ (fn s').1.calls)
  unfolding statement with_tenant
  with_tenant-scope shelter a h = (
    (set_tenant_scope shelter (begin s).1).1,
    ground arith,
    ground arith,
    ground arith,
    ground arith,
    ground arith,
    ground arith,
  )

-- A callback that leaves the session's own settings alone, as every one does that sets none.
abbrev pub KeepsSession : {A : Type 0} → M A → Type 0
KeepsSession fn =
    (s : State)
    → ((fn s).1.user_setting.session ≡ s.user_setting.session)
      × ((fn s).1.shelter_setting.session ≡ s.shelter_setting.session)

-- A setting of a connection that goes back to the pool: what it was set to for a transaction alone is
-- gone, and nullif, by which every policy reads it, tells no difference.
abbrev pub SameSetting : Setting → Setting → Type 0
SameSetting g h = (h.local ≡ none) × (nullif h.session ≡ nullif g.session)

abbrev pub SameSettings : State → State → Type 0
SameSettings s t =
    SameSetting s.user_setting t.user_setting × SameSetting s.shelter_setting t.shelter_setting

nullif-emptied : (own before : Option Bytes) → nullif (emptied before own) ≡ nullif before
unfolding nullif emptied
nullif-emptied none none = refl
nullif-emptied (some v) none = refl
nullif-emptied own (some w) = refl

pub forget_local-SameSetting :
    (g h : Setting) → h.session ≡ g.session → SameSetting g (forget_local h)
forget_local-SameSetting g h same = (refl, nullif-emptied h.local h.session ∙ ap nullif same)

pub reverted-SameSetting : (g h : Setting) → g.local ≡ none → SameSetting g (reverted g h)
reverted-SameSetting g h tidy = (tidy, nullif-emptied (current h) g.session)

module _ {A : Type 0} (fn : M A) (keeps : KeepsSession fn) (s : State)
    (no_user : s.user_setting.local ≡ none) (no_shelter : s.shelter_setting.local ≡ none) where
  -- Of a callback that leaves the session's own settings alone, and on a connection whose settings have
  -- no value for a transaction alone: whatever happens in WithTenant and WithAuthUser, a return, an
  -- error or a panic, the connection goes back to the pool without such a value, and every policy
  -- reads of both settings what it read before, so no scope outlives the call.
  pub with-SameSettings :
      (id : Bytes)
      → SameSettings s (with_tenant id fn s).1 × SameSettings s (with_auth_user id fn s).1
  unfolding statement with_tenant with_auth_user
  with-SameSettings id =
      let inside = (set_tenant_scope id (begin s).1).1 in
      let inside' = (set_auth_scope id (begin s).1).1 in
      (
        ground (
          arith,
          keeps inside,
          forget_local-SameSetting s.user_setting (fn inside).1.user_setting,
          forget_local-SameSetting s.shelter_setting (fn inside).1.shelter_setting,
          reverted-SameSetting s.user_setting (fn inside).1.user_setting no_user,
          reverted-SameSetting s.shelter_setting (fn inside).1.shelter_setting no_shelter,
        ),
        ground (
          arith,
          keeps inside',
          forget_local-SameSetting s.user_setting (fn inside').1.user_setting,
          forget_local-SameSetting s.shelter_setting (fn inside').1.shelter_setting,
          reverted-SameSetting s.user_setting (fn inside').1.user_setting no_user,
          reverted-SameSetting s.shelter_setting (fn inside').1.shelter_setting no_shelter,
        ),
      )

-- A panic of the callback reaches the caller of WithAuthUser, once the transaction is rolled back.
pub with_auth_user-panicked :
    {A : Type 0} (fn : M A) (s : State) (user : Bytes) (p : ℕ)
    → user ≢ nil_uuid
    → s.faults ≡ []
    → (fn (set_auth_scope user (begin s).1).1).0 ≡ panicked p
    → ((with_auth_user user fn s).0 ≡ panicked p)
      × ((with_auth_user user fn s).1.tables ≡ s.tables)
      × ((with_auth_user user fn s).1.calls
          ≡ rolled_back ∷ (fn (set_auth_scope user (begin s).1).1).1.calls)
unfolding statement with_auth_user
with_auth_user-panicked fn s user p real quiet h = ground (arith, =ᵇ_iff user nil_uuid)
