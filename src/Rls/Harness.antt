-- ===== src/Rls/Harness.antt =====
-- apps/api/internal/db/dbtest/container.go: when a test gets the database of the harness, is skipped or
-- fails, and what the harness opens for it. What containers and servers do is a parameter.
mod Opened
pub mod Started
mod Tests
use mathlib.Core.List.{reverse}
use mascotapp.Base.{
  ℕ, suc, ◌++◌, Bool, true, false, not, ◌&&◌, List, [], ◌∷◌, Option, none, some, Bytes, codes,
  is_empty, if◌then◌else◌,
}
use mascotapp.Base.Results.{Result, pass, fail}
use mascotapp.Rls.Roles.{RoleCapabilities, RoleError, guard_role}

abbrev pub skip_env_var : Bytes
skip_env_var = codes "MASCOTAPP_SKIP_DOCKER_TESTS"

abbrev pub ci_env_var : Bytes
ci_env_var = codes "CI"

abbrev pub owner_role : Bytes
owner_role = codes "mascotapp"

-- The roles of the list that newEnv ranges over.
abbrev pub app_roles : List Bytes
app_roles = codes "app_tenant" ∷ codes "app_public" ∷ codes "app_auth" ∷ []

-- GuardEscapeHatch: true is ErrEscapeHatchInCI.
unfoldable pub guard_escape_hatch : (Bytes → Bytes) → Bool
guard_escape_hatch getenv =
    not (is_empty (getenv skip_env_var)) && not (is_empty (getenv ci_env_var))

pub data Reason : Type 0 where
  short_requested variable_set : Reason

-- SkipReason
unfoldable pub skip_reason : Bool → (Bytes → Bytes) → Option Reason
skip_reason short getenv =
    if short
    then some short_requested
    else if not (is_empty (getenv skip_env_var))
    then some variable_set
    else none

-- What is opened and has to be closed again.
pub data Resource : Type 0 where
  container owner_pool : Resource
  app_pool : Bytes → Resource

-- postgres.Run may return a container along with its error. `reported` is what a server says of a role.
pub record World : Type 0 where
  pub container_returned : Bool
  pub run_fails : Bool
  pub no_connection_string : Bool
  pub owner_pool_fails : Bool
  pub migrate_fails : Bool
  pub app_pool_fails : Bytes → Bool
  pub reported : Bytes → Option RoleCapabilities

pub data HarnessError : Type 0 where
  not_started no_dsn no_owner_pool not_migrated : HarnessError
  no_app_pool : Bytes → HarnessError
  not_guarded : RoleError → HarnessError

-- The map `guarded`, in the order in which it is filled.
abbrev pub Guarded : Type 0
Guarded = List (Bytes × RoleCapabilities)

-- What newEnv has opened, newest first, and its slice closers.
pub record Held : Type 0 where
  pub opened : List Resource
  pub closers : List Resource

-- A resource that was opened.
abbrev pub opening : Resource → Held → Held
opening r held = record held { opened = r ∷ held.opened }

-- closers = append(closers, …)
abbrev pub closing : Resource → Held → Held
closing r held = record held { closers = held.closers ++ r ∷ [] }

-- cleanup: what it closes, in the order in which it does.
abbrev pub cleanup : Held → List Resource
cleanup held = reverse held.closers

abbrev pub guarding :
    Bytes
    → (RoleCapabilities → Result HarnessError Guarded × Held)
    → Result RoleError RoleCapabilities
    → Held
    → Result HarnessError Guarded × Held
guarding role k (fail e) held = (fail (not_guarded e), held)
guarding role k (pass caps) held = k caps

abbrev pub recorded :
    Bytes
    → RoleCapabilities
    → Result HarnessError Guarded × Held
    → Result HarnessError Guarded × Held
recorded role caps (fail e, held) = (fail e, held)
recorded role caps (pass guarded, held) = (pass ((role, caps) ∷ guarded), held)

module _ (world : World) where
  -- The loop of newEnv over the application roles.
  unfoldable pub open_roles : List Bytes → Held → Result HarnessError Guarded × Held
  unfolding guard_role
  open_roles [] held = (pass [], held)
  open_roles (role ∷ roles) held =
      let pooled = closing (app_pool role) (opening (app_pool role) held) in
      let rest = open_roles roles pooled in
      if world.app_pool_fails role
      then (fail (no_app_pool role), held)
      else guarding role (λ caps. recorded role caps rest)
          (guard_role (world.reported role) owner_role) pooled

  -- newEnv
  unfoldable pub new_env : Result HarnessError Guarded × Held
  unfolding open_roles
  new_env =
      let nothing : Held = record { opened = []; closers = [] } in
      let run =
        if world.container_returned
        then closing container (opening container nothing)
        else nothing in
      let pooled = closing owner_pool (opening owner_pool run) in
      if world.run_fails
      then (fail not_started, run)
      else if world.no_connection_string
      then (fail no_dsn, run)
      else if world.owner_pool_fails
      then (fail no_owner_pool, run)
      else if world.migrate_fails
      then (fail not_migrated, pooled)
      else open_roles app_roles pooled

-- How a test goes on.
pub data Got : Type 0 where
  skipped : Reason → Got
  fatal : HarnessError → Got
  env : Guarded → Got

abbrev pub got : Result HarnessError Guarded → Got
got (pass guarded) = env guarded
got (fail e) = fatal e

-- sharedOnce, with what it has set: `none` before the first call. `starts` counts the runs of newEnv.
pub record Shared : Type 0 where
  pub starts : ℕ
  pub result : Option (Result HarnessError Guarded)

abbrev pub started : Result HarnessError Guarded → Shared → Result HarnessError Guarded × Shared
started r shared = (r, record { starts = suc shared.starts; result = some r })

abbrev pub answering : Result HarnessError Guarded × Shared → Got × Shared
answering (r, shared) = (got r, shared)

-- Each run of newEnv meets a world of its own.
module _ (worlds : ℕ → World) where
  -- sharedOnce.Do
  unfoldable pub once : Shared → Result HarnessError Guarded × Shared
  unfolding new_env
  once shared = elim shared.result [
    | none ↦ started (new_env (worlds shared.starts)).0 shared
    | some r ↦ (r, shared)
  ]

  -- Postgres, on what SkipReason says.
  unfoldable pub postgres_unless : Option Reason → Shared → Got × Shared
  unfolding once
  postgres_unless (some reason) shared = (skipped reason, shared)
  postgres_unless none shared = answering (once shared)

  -- Postgres
  unfoldable pub postgres : Bool → (Bytes → Bytes) → Shared → Got × Shared
  unfolding skip_reason postgres_unless
  postgres short getenv shared = postgres_unless (skip_reason short getenv) shared
