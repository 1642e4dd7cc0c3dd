-- ===== src/Db/Pool/Contract.antt =====
-- What every pool that db.go opens keeps to.
use mascotapp.Base.{
  ◌<◌, ◌≡◌, ◌⊎◌, inl, inr, refl, sym, subst, Bool, true, List, [], ◌∷◌, Option, some, Bytes, codes,
  =ᵇ_refl, is_empty, trim_space, Bool-cases, Option-cases, arith,
}
use mascotapp.Base.Results.{Result, pass, fail, bind-pass}
use mascotapp.Rls.{lookup}
use mascotapp.Db.Pool.{
  PoolConfig, PoolError, PoolCall, opened, pinged, closed, neon_auto_suspend_after, set_param,
  pool_config, public_pool_config, params_of, defaulting_to_read_only, new_pool, with_config,
  pool_failed, not_connected, open_tenant_pool, open_auth_pool, open_public_pool,
}

lookup-set_param :
    (key value : Bytes) (params : List (Bytes × Bytes))
    → lookup key (set_param key value params) ≡ some value
unfolding lookup set_param
lookup-set_param key value [] = ground (arith, =ᵇ_refl key)
lookup-set_param key value ((k, v) ∷ params) =
    ground (arith, =ᵇ_refl key, lookup-set_param key value params)

-- No idle connection lives until the database suspends, none is kept open for nothing, and there are
-- at most four.
abbrev pub SuspendsInTime : PoolConfig → Type 0
SuspendsInTime cfg =
    (cfg.idle_time < neon_auto_suspend_after) × (cfg.min ≡ 0) × (cfg.min_idle ≡ 0) × (cfg.max ≡ 4)

-- The server defaults every transaction of the connection to read-only.
abbrev pub IsReadOnly : PoolConfig → Type 0
IsReadOnly cfg =
    (params : List (Bytes × Bytes)) × (cfg.runtime_params ≡ some params)
    × (lookup (codes "default_transaction_read_only") params ≡ some (codes "on"))

-- A pool that is handed out was pinged and answered; one that did not answer was closed.
abbrev pub Keeps :
    (PoolConfig → Bool)
    → (PoolConfig → Type 0)
    → Result PoolError PoolConfig × List PoolCall
    → Type 0
Keeps answers P (pass cfg, calls) =
    SuspendsInTime cfg × P cfg × (answers cfg ≡ true) × (calls ≡ pinged ∷ opened ∷ [])
Keeps answers P (fail e, calls) = (calls ≡ []) ⊎ (calls ≡ closed ∷ pinged ∷ opened ∷ [])

pool_config-pass :
    (parse_config : Bytes → Option PoolConfig) (dsn : Bytes) (cfg : PoolConfig)
    → pool_config parse_config dsn ≡ pass cfg
    → SuspendsInTime cfg
unfolding pool_config
pool_config-pass parse_config dsn cfg h = elim (Bool-cases (is_empty (trim_space dsn))) [
  | inl blank ↦ absurd (ground arith)
  | inr given ↦ elim (Option-cases (parse_config dsn)) [
    | inl bad ↦ absurd (ground arith)
    | inr (parsed, read) ↦ (ground arith, ground arith, ground arith, ground arith)
  ]
]

public_pool_config-pass :
    (parse_config : Bytes → Option PoolConfig) (dsn : Bytes) (cfg : PoolConfig)
    → public_pool_config parse_config dsn ≡ pass cfg
    → SuspendsInTime cfg × IsReadOnly cfg
unfolding public_pool_config
public_pool_config-pass parse_config dsn cfg h =
    let (base, made, e) =
      bind-pass (pool_config parse_config dsn) (λ cfg. pass (defaulting_to_read_only cfg)) cfg h in
    let same : defaulting_to_read_only base ≡ cfg = ground arith in
    subst (λ c. SuspendsInTime c × IsReadOnly c) same
      (
        pool_config-pass parse_config dsn base made,
        (
          set_param (codes "default_transaction_read_only") (codes "on")
              (params_of base.runtime_params),
          refl,
          lookup-set_param (codes "default_transaction_read_only") (codes "on")
              (params_of base.runtime_params),
        ),
      )

module _ (creates answers : PoolConfig → Bool) (P : PoolConfig → Type 0) where
  new_pool-Keeps :
      (cfg : PoolConfig)
      → SuspendsInTime cfg
      → P cfg
      → Keeps answers P (new_pool creates answers cfg)
  new_pool-Keeps cfg fits p = elim (Bool-cases (creates cfg)) [
    | inl made ↦ elim (Bool-cases (answers cfg)) [
      | inl there ↦
          let e : new_pool creates answers cfg ≡ (pass cfg, pinged ∷ opened ∷ []) =
            unfold new_pool in ground arith in
          subst (Keeps answers P) (sym e) (fits, p, there, refl)
      | inr silent ↦
          let e : new_pool creates answers cfg
              ≡ (fail (not_connected cfg.database), closed ∷ pinged ∷ opened ∷ []) =
            unfold new_pool in ground arith in
          subst (Keeps answers P) (sym e) (inr refl)
    ]
    | inr refused ↦
        let e : new_pool creates answers cfg ≡ (fail pool_failed, []) =
          unfold new_pool in ground arith in
        subst (Keeps answers P) (sym e) (inl refl)
  ]

  with_config-Keeps :
      (made : Result PoolError PoolConfig)
      → ((cfg : PoolConfig) → made ≡ pass cfg → SuspendsInTime cfg × P cfg)
      → Keeps answers P (with_config (new_pool creates answers) made)
  with_config-Keeps (fail e) h = inl refl
  with_config-Keeps (pass cfg) h = new_pool-Keeps cfg (h cfg refl).0 (h cfg refl).1

-- Every pool that NewPool, NewAuthPool and NewPublicPool hand out answered a ping, has at most four connections,
-- keeps none open for nothing and closes an idle one before the database suspends; the public one
-- defaults to read-only transactions. One that did not answer the ping was closed again, and on any
-- other error none was opened.
pub pools-Keeps :
    (parse_config : Bytes → Option PoolConfig) (creates answers : PoolConfig → Bool) (dsn : Bytes)
    → Keeps answers (λ cfg. Unit {0}) (open_tenant_pool parse_config creates answers dsn)
      × Keeps answers (λ cfg. Unit {0}) (open_auth_pool parse_config creates answers dsn)
      × Keeps answers IsReadOnly (open_public_pool parse_config creates answers dsn)
unfolding open_tenant_pool open_auth_pool open_public_pool
pools-Keeps parse_config creates answers dsn = (
  with_config-Keeps creates answers (λ cfg. Unit {0}) (pool_config parse_config dsn)
      (λ cfg e. (pool_config-pass parse_config dsn cfg e, tt)),
  with_config-Keeps creates answers (λ cfg. Unit {0}) (pool_config parse_config dsn)
      (λ cfg e. (pool_config-pass parse_config dsn cfg e, tt)),
  with_config-Keeps creates answers IsReadOnly (public_pool_config parse_config dsn)
      (public_pool_config-pass parse_config dsn),
)
