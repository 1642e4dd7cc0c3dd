-- ===== src/Db/Bootstrap/Tests.antt =====
-- A password for app_tenant, on a server that runs every request and on one that loses the commit.
use mascotapp.Base.{
  ◌≡◌, ◌≢◌, ◌⊎◌, refl, Bool, true, false, List, [], ◌∷◌, none, some, codes, ◌=ᵇ◌, trim_space, arith,
}
use mascotapp.Base.Results.{pass}
use mascotapp.Db.State.{Setting}
use mascotapp.Db.Bootstrap.Roles.{IsRoleName}
use mascotapp.Db.Bootstrap.Password.{RoleServer, password_of, set_role_password}
use mascotapp.Db.Bootstrap.Transaction.{TookEffect}
use mascotapp.Db.Bootstrap.Set.{
  IsUntouched, set_role_password-all_or_nothing, set_role_password-passes,
}

abbrev unset : Setting
unset = record { session = none; local = none }

abbrev server : List Bool → RoleServer
server faults = record {
  passwords = (codes "app_tenant", none) ∷ (codes "app_public", none) ∷ [];
  role_setting = unset;
  password_setting = unset;
  faults = faults;
}

own : IsRoleName (codes "app_tenant")
own = (b't', codes "enant", refl, refl, omega arith, refl)

real : trim_space (codes "s3cret") ≢ []
unfolding trim_space
real e = ground (arith, e)

there : password_of (codes "app_tenant") (server []).passwords ≡ some none
unfolding password_of ◌=ᵇ◌
there = refl

set_role_password-all_or_nothing_example :
    (((set_role_password
          (codes "app_tenant")
          (codes "s3cret")
          (server (false ∷ false ∷ true ∷ []))).0
        ≡ pass tt)
      × IsRoleName (codes "app_tenant")
      × (trim_space (codes "s3cret") ≢ [])
      × TookEffect
          (codes "app_tenant")
          (codes "s3cret")
          (server (false ∷ false ∷ true ∷ []))
          (set_role_password
            (codes "app_tenant")
            (codes "s3cret")
            (server (false ∷ false ∷ true ∷ []))).1)
    ⊎ (((set_role_password
            (codes "app_tenant")
            (codes "s3cret")
            (server (false ∷ false ∷ true ∷ []))).0
          ≢ pass tt)
        × IsUntouched
            (server (false ∷ false ∷ true ∷ []))
            (set_role_password
              (codes "app_tenant")
              (codes "s3cret")
              (server (false ∷ false ∷ true ∷ []))).1)
set_role_password-all_or_nothing_example =
    set_role_password-all_or_nothing (codes "app_tenant") (codes "s3cret")
      (server (false ∷ false ∷ true ∷ [])) refl refl

set_role_password-passes_example :
    ((set_role_password (codes "app_tenant") (codes "s3cret") (server [])).0 ≡ pass tt)
    × TookEffect
        (codes "app_tenant")
        (codes "s3cret")
        (server [])
        (set_role_password (codes "app_tenant") (codes "s3cret") (server [])).1
set_role_password-passes_example =
    set_role_password-passes (codes "app_tenant") (codes "s3cret") (server []) own real
      (ground (arith, there)) refl refl refl
