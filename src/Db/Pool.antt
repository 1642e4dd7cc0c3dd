-- ===== src/Db/Pool.antt =====
-- apps/api/internal/db/db.go: the pools of the tenants and of the public catalogue. pgxpool.ParseConfig
-- and what the server answers to a ping are parameters. A time is in nanoseconds.
pub mod Contract
mod Tests
use mascotapp.Base.{
  ℕ, ◌*◌, ◌^◌, Bool, true, false, List, [], ◌∷◌, Option, none, some, Bytes, codes, ◌=ᵇ◌, is_empty,
  trim_space, if◌then◌else◌,
}
use mascotapp.Base.Results.{Result, pass, fail, ◌>>=◌, or_fail}

abbrev pub second : ℕ
second = 10 ^ 9

-- NeonAutoSuspendAfter
abbrev pub neon_auto_suspend_after : ℕ
neon_auto_suspend_after = 5 * 60 * second

abbrev pub max_conns : ℕ
max_conns = 4

abbrev pub max_conn_idle_time : ℕ
max_conn_idle_time = 2 * 60 * second

abbrev pub max_conn_lifetime : ℕ
max_conn_lifetime = 30 * 60 * second

-- The fields of pgxpool.Config that the code sets or reads. The map of runtime parameters is nil or the
-- list of its entries.
pub record PoolConfig : Type 0 where
  pub max : ℕ
  pub idle_time : ℕ
  pub lifetime : ℕ
  pub min : ℕ
  pub min_idle : ℕ
  pub database : Bytes
  pub runtime_params : Option (List (Bytes × Bytes))

pub data PoolError : Type 0 where
  dsn_required dsn_unparsed pool_failed : PoolError
  not_connected : Bytes → PoolError

-- params[key] = value
unfoldable pub set_param : Bytes → Bytes → List (Bytes × Bytes) → List (Bytes × Bytes)
set_param key value [] = (key, value) ∷ []
set_param key value ((k, v) ∷ params) =
    let rest = set_param key value params in
    if k =ᵇ key then (key, value) ∷ params else (k, v) ∷ rest

-- PoolConfig
unfoldable pub pool_config : (Bytes → Option PoolConfig) → Bytes → Result PoolError PoolConfig
pool_config parse_config dsn = if is_empty (trim_space dsn) then fail dsn_required else (do
  cfg ← or_fail (parse_config dsn) dsn_unparsed
  pass (record cfg {
    max = max_conns;
    idle_time = max_conn_idle_time;
    lifetime = max_conn_lifetime;
    min = 0;
    min_idle = 0;
  }))

-- A nil map is replaced by an empty one.
abbrev pub params_of : Option (List (Bytes × Bytes)) → List (Bytes × Bytes)
params_of none = []
params_of (some params) = params

-- What PublicPoolConfig does to the configuration of PoolConfig.
abbrev pub defaulting_to_read_only : PoolConfig → PoolConfig
defaulting_to_read_only cfg = record cfg {
  runtime_params = some (
      set_param (codes "default_transaction_read_only") (codes "on")
        (params_of cfg.runtime_params));
}

-- PublicPoolConfig
unfoldable pub public_pool_config :
    (Bytes → Option PoolConfig) → Bytes → Result PoolError PoolConfig
unfolding pool_config set_param
public_pool_config parse_config dsn = do
  cfg ← pool_config parse_config dsn
  pass (defaulting_to_read_only cfg)

-- What a pool is asked to do, newest first.
pub data PoolCall : Type 0 where
  opened pinged closed : PoolCall

-- newPool, on whether pgxpool.NewWithConfig makes a pool of a configuration and whether that answers a
-- ping: the pool, which is its configuration, or an error, and the calls.
unfoldable pub new_pool :
    (PoolConfig → Bool)
    → (PoolConfig → Bool)
    → PoolConfig
    → Result PoolError PoolConfig × List PoolCall
new_pool creates answers cfg =
    if creates cfg
    then if answers cfg
      then (pass cfg, pinged ∷ opened ∷ [])
      else (fail (not_connected cfg.database), closed ∷ pinged ∷ opened ∷ [])
    else (fail pool_failed, [])

abbrev pub with_config :
    (PoolConfig → Result PoolError PoolConfig × List PoolCall)
    → Result PoolError PoolConfig
    → Result PoolError PoolConfig × List PoolCall
with_config open_pool (pass cfg) = open_pool cfg
with_config open_pool (fail e) = (fail e, [])

module _ (parse_config : Bytes → Option PoolConfig) (creates answers : PoolConfig → Bool) where
  -- NewPool
  unfoldable pub open_tenant_pool : Bytes → Result PoolError PoolConfig × List PoolCall
  unfolding pool_config new_pool
  open_tenant_pool dsn = with_config (new_pool creates answers) (pool_config parse_config dsn)

  -- NewPublicPool
  unfoldable pub open_public_pool : Bytes → Result PoolError PoolConfig × List PoolCall
  unfolding public_pool_config new_pool
  open_public_pool dsn =
      with_config (new_pool creates answers) (public_pool_config parse_config dsn)

  -- NewAuthPool, of internal/db/auth.go
  unfoldable pub open_auth_pool : Bytes → Result PoolError PoolConfig × List PoolCall
  unfolding pool_config new_pool
  open_auth_pool dsn = with_config (new_pool creates answers) (pool_config parse_config dsn)
