-- ===== src/Db/Tests.antt =====
-- Runs of the transaction wrappers.
use mascotapp.Base.{ℕ, ◌≡◌, ◌⊎◌, refl, [], ◌∷◌, none, some, ◌=ᵇ◌}
use mascotapp.Db.State.{State, TotpRecoveryCode, current, committed, ok, panicked, M, statement}
use mascotapp.Db.Tenant.{with_tenant, with_public}
use mascotapp.Db.Auth.{with_auth_user, with_auth_lookup}
use mascotapp.Db.Queries.{with_codes}
use mascotapp.Db.Samples.{uuid, empty_server}
use mascotapp.Db.Atomicity.{IsOk, SameSettings, with-tables, with-SameSettings, with_tenant-scope}

abbrev sample_code : TotpRecoveryCode
sample_code = record {
  id = uuid 5;
  user_id = uuid 1;
  code_hash = 7 ∷ [];
  used_at = none;
  created_at = 0;
}

-- A callback that writes and returns, and one that writes and panics.
abbrev writes : M ℕ
writes s = (ok 5, with_codes (sample_code ∷ []) s)

abbrev crashes : M ℕ
crashes s = (panicked 9, with_codes (sample_code ∷ []) s)

with-tables_example :
    (IsOk (with_tenant (uuid 1) crashes empty_server).0
      ⊎ ((with_tenant (uuid 1) crashes empty_server).1.tables ≡ empty_server.tables))
    × (IsOk (with_public crashes empty_server).0
        ⊎ ((with_public crashes empty_server).1.tables ≡ empty_server.tables))
    × (IsOk (with_auth_user (uuid 1) crashes empty_server).0
        ⊎ ((with_auth_user (uuid 1) crashes empty_server).1.tables ≡ empty_server.tables))
    × (IsOk (with_auth_lookup crashes empty_server).0
        ⊎ ((with_auth_lookup crashes empty_server).1.tables ≡ empty_server.tables))
with-tables_example = with-tables crashes empty_server (uuid 1)

user_returns : (with_auth_user (uuid 1) writes empty_server).0 ≡ ok 5
unfolding with_auth_user statement ◌=ᵇ◌
user_returns = refl

tenant_returns : (with_tenant (uuid 1) writes empty_server).0 ≡ ok 5
unfolding with_tenant statement ◌=ᵇ◌
tenant_returns = refl

with-SameSettings_example :
    SameSettings empty_server (with_tenant (uuid 1) crashes empty_server).1
    × SameSettings empty_server (with_auth_user (uuid 1) crashes empty_server).1
with-SameSettings_example =
    with-SameSettings crashes (λ s. (refl, refl)) empty_server refl refl (uuid 1)

with_tenant-scope_example :
    (s' : State) × (current s'.shelter_setting ≡ some (uuid 1))
    × (s'.tables ≡ empty_server.tables)
    × (s'.user_setting ≡ empty_server.user_setting)
    × ((writes s').0 ≡ ok 5)
    × ((with_tenant (uuid 1) writes empty_server).1.tables ≡ (writes s').1.tables)
    × ((with_tenant (uuid 1) writes empty_server).1.calls ≡ committed ∷ (writes s').1.calls)
with_tenant-scope_example = with_tenant-scope writes empty_server (uuid 1) 5 tenant_returns
