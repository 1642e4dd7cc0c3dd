-- ===== src/Db/Pool/Tests.antt =====
-- A public pool whose server answers, and one that does not.
use mascotapp.Base.{◌≡◌, refl, true, false, [], ◌∷◌, Option, none, some, Bytes, codes, trim_space}
use mascotapp.Base.Results.{fail}
use mascotapp.Db.Pool.{
  PoolConfig, open_tenant_pool, open_auth_pool, open_public_pool, closed, pinged, opened,
  not_connected,
}
use mascotapp.Db.Pool.Contract.{Keeps, IsReadOnly, pools-Keeps}

abbrev parsed : Bytes → Option PoolConfig
parsed dsn = some (record {
  max = 16;
  idle_time = 0;
  lifetime = 0;
  min = 2;
  min_idle = 0;
  database = codes "mascotapp";
  runtime_params = none;
})

not_reached :
    open_tenant_pool parsed (λ cfg. true) (λ cfg. false) (codes "postgres://x")
    ≡ (fail (not_connected (codes "mascotapp")), closed ∷ pinged ∷ opened ∷ [])
unfolding open_tenant_pool trim_space
not_reached = refl

pools-Keeps_example :
    Keeps
      (λ cfg. true)
      (λ cfg. Unit {0})
      (open_tenant_pool parsed (λ cfg. true) (λ cfg. true) (codes "x"))
    × Keeps
        (λ cfg. true)
        (λ cfg. Unit {0})
        (open_auth_pool parsed (λ cfg. true) (λ cfg. true) (codes "x"))
    × Keeps
        (λ cfg. true)
        IsReadOnly
        (open_public_pool parsed (λ cfg. true) (λ cfg. true) (codes "x"))
pools-Keeps_example = pools-Keeps parsed (λ cfg. true) (λ cfg. true) (codes "x")
