-- ===== src/Rls/Harness/Started.antt =====
-- What the harness of container.go hands out, and what it closes.
use mascotapp.Base.{ℕ, ◌≡◌, ◌≢◌, ◌⊎◌, Bool, true, false, List, [], ◌∷◌, Option, none, some, Bytes}
use mascotapp.Base.Results.{Result}
use mascotapp.Rls.Harness.{
  skip_env_var, app_roles, World, HarnessError, Guarded, Shared, new_env, Got, skipped, fatal, env,
  got, Reason, postgres,
}
use mascotapp.Rls.Harness.Opened.{AreGuarded}

-- How a test may end, by what it was asked with.
abbrev pub IsEnding : World → Bool → (Bytes → Bytes) → Got → Type 0
IsEnding world short getenv (skipped reason) = (short ≡ true) ⊎ (getenv skip_env_var ≢ [])
IsEnding world short getenv (fatal e) = (short ≡ false) × (getenv skip_env_var ≡ [])
IsEnding world short getenv (env gs) =
    (short ≡ false) × (getenv skip_env_var ≡ []) × AreGuarded world app_roles gs

-- No call of Postgres yet.
abbrev pub fresh : Shared
fresh = record { starts = 0; result = none }

-- A call of Postgres: -short, and the environment.
abbrev pub Asked : Type 0
Asked = Bool × (Bytes → Bytes)

-- A test that is skipped.
abbrev pub IsSkipped : Got → Type 0
IsSkipped (skipped reason) = Unit
IsSkipped (fatal e) = ⊥
IsSkipped (env gs) = ⊥

module _ (worlds : ℕ → World) where
  -- The answers to calls one after the other, and the state after the last.
  abbrev pub answers : List Asked → Shared → List Got × Shared
  answers [] shared = ([], shared)
  answers ((short, getenv) ∷ calls) shared =
      let one = postgres worlds short getenv shared in
      let rest = answers calls one.1 in (one.0 ∷ rest.0, rest.1)

  -- Every call ends as it was asked, in the one world that was started.
  abbrev pub AreEndings : List Asked → List Got → Type 0
  AreEndings [] [] = Unit
  AreEndings [] (g ∷ gs) = ⊥
  AreEndings (c ∷ calls) [] = ⊥
  AreEndings ((short, getenv) ∷ calls) (g ∷ gs) =
      IsEnding (worlds 0) short getenv g × AreEndings calls gs

  abbrev first : Result HarnessError Guarded
  first = (new_env (worlds 0)).0

  -- newEnv has not run, or once in the first world.
  abbrev RanOnce : Shared → Type 0
  RanOnce shared = (shared ≡ fresh) ⊎ (shared ≡ record { starts = 1; result = some first })

  -- What one call answers and leaves.
  abbrev OneCall : Option Reason → Got × Shared → Type 0
  OneCall skip r =
      (r.0 ≡ elim skip [ none ↦ got first | some reason ↦ skipped reason ]) × RanOnce r.1
