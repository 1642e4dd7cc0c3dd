-- ===== src/Rls/Harness/Tests.antt =====
-- A harness whose server reports three plain roles, in CI.
use mascotapp.Base.{
  ℕ, zero, suc, ◌≡◌, true, false, List, [], ◌∷◌, some, Bytes, codes, ◌=ᵇ◌, if◌then◌else◌, refl,
}
use mascotapp.Rls.Harness.{ci_env_var, guard_escape_hatch, World}
use mascotapp.Rls.Harness.Started.{Asked}

abbrev world : World
world = record {
  container_returned = true;
  run_fails = false;
  no_connection_string = false;
  owner_pool_fails = false;
  migrate_fails = false;
  app_pool_fails = λ role. false;
  reported = λ role. some (record { name = role; super = false; bypass_rls = false });
}

abbrev in_ci : Bytes → Bytes
in_ci name = if name =ᵇ ci_env_var then codes "true" else []

-- A second world, that no call is to meet.
abbrev worlds : ℕ → World
worlds zero = world
worlds (suc n) = record world { run_fails = true }

abbrev calls : List Asked
calls = (false, in_ci) ∷ (true, in_ci) ∷ (false, in_ci) ∷ []

guards_ci : guard_escape_hatch in_ci ≡ false
unfolding guard_escape_hatch ◌=ᵇ◌
guards_ci = refl
