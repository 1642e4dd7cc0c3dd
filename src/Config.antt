-- ===== src/Config.antt =====
-- apps/api/internal/config/config.go: Load and parseTrustedProxies. The environment is a function;
-- netip.ParsePrefix and netip.ParseAddr are parameters.
pub mod Loaded
mod Tests
use mascotapp.Base.{
  ℕ, ◌+◌, ◌-◌, ◌*◌, ◌/◌, ◌^◌, Bool, true, false, not, ◌&&◌, ◌||◌, List, [], ◌∷◌, Option, none, some,
  Bytes, codes, ◌=ᵇ◌, ◌==◌, ltb, leb, is_empty, split, trim_space, if◌then◌else◌,
}
use mascotapp.Base.Results.{Result, pass, fail, ◌>>=◌, or_fail}
use mascotapp.Http.ClientIp.{Addr, v4, v6, Prefix, unmap}

pub record Config : Type 0 where
  pub port : ℕ
  pub env : Bytes
  pub log_level : Bytes
  pub database_url : Bytes
  pub trusted_proxies : List Prefix

pub data ConfigError : Type 0 where
  port_not_number : Bytes → ConfigError
  port_out_of_range : ConfigError
  invalid_env invalid_proxy : Bytes → ConfigError

abbrev pub min_port : ℕ
min_port = 1

abbrev pub max_port : ℕ
max_port = 65535

-- The decimal digits of a text, all of it.
unfoldable pub read_digits : ℕ → Bytes → Option ℕ
read_digits n [] = some n
read_digits n (c ∷ cs) =
    let rest = read_digits (n * 10 + (c - b'0')) cs in
    if leb b'0' c && leb c b'9' then rest else none

-- A magnitude that an int64 of this sign holds.
unfoldable pub in_int64 : Bool → Option ℕ → Option (Bool × ℕ)
in_int64 negative none = none
in_int64 negative (some n) =
    if leb n (if negative then 2 ^ 63 else 2 ^ 63 - 1) then some (negative, n) else none

-- The digits after a sign, of which there is one at least.
unfoldable pub magnitude : Bool → Bytes → Option (Bool × ℕ)
magnitude negative [] = none
magnitude negative (c ∷ cs) = in_int64 negative (read_digits 0 (c ∷ cs))

-- strconv.Atoi: whether the number is negative, and its magnitude.
unfoldable pub atoi : Bytes → Option (Bool × ℕ)
atoi [] = none
atoi (c ∷ cs) =
    if c == b'-'
    then magnitude true cs
    else if c == b'+'
    then magnitude false cs
    else magnitude false (c ∷ cs)

-- validEnvs
unfoldable pub valid_env : Bytes → Bool
valid_env env =
    (env =ᵇ codes "development") || (env =ᵇ codes "staging") || (env =ᵇ codes "production")

-- The first step of Load: PORT, or the default, in range.
unfoldable pub load_port : Bytes → Result ConfigError ℕ
load_port [] = pass 8080
load_port (c ∷ cs) = elim (atoi (c ∷ cs)) [
  | none ↦ fail (port_not_number (c ∷ cs))
  | some port ↦
      if port.0 || ltb port.1 min_port || ltb max_port port.1
      then fail port_out_of_range
      else pass port.1
]

-- A setting, or its default if it is empty.
abbrev pub or_default : Bytes → Bytes → Bytes
or_default [] default_ = default_
or_default (c ∷ cs) default_ = c ∷ cs

-- Prefix.Masked
unfoldable pub masked : Prefix → Prefix
masked p = elim p.base [
  | v4 a ↦ record { base = Addr.v4 (a / 2 ^ (32 - p.bits) * 2 ^ (32 - p.bits)); bits = p.bits }
  | v6 a zone ↦ record {
    base = Addr.v6 (a / 2 ^ (128 - p.bits) * 2 ^ (128 - p.bits)) [];
    bits = p.bits;
  }
]

-- netip.PrefixFrom(addr.Unmap(), addr.BitLen()), which drops the zone.
unfoldable pub single : Addr → Prefix
single a = elim (unmap a) [
  | v4 b ↦ record { base = Addr.v4 b; bits = 32 }
  | v6 b zone ↦ record { base = Addr.v6 b []; bits = 128 }
]

module _ (parse_prefix : Bytes → Option Prefix) (parse_addr : Bytes → Option Addr) where
  -- The body of the loop of parseTrustedProxies, for an entry that is not blank.
  unfoldable pub parse_proxy : Bytes → Result ConfigError Prefix
  parse_proxy entry = elim (parse_prefix entry) [
    | some p ↦ pass (masked p)
    | none ↦ elim (parse_addr entry) [
      | none ↦ fail (invalid_proxy entry)
      | some a ↦ pass (single a)
    ]
  ]

  -- The loop of parseTrustedProxies.
  unfoldable pub parse_entries : List Bytes → Result ConfigError (List Prefix)
  parse_entries [] = pass []
  parse_entries (e ∷ es) =
      let rest = parse_entries es in
      let entry = trim_space e in
      if is_empty entry then rest else (do p ← parse_proxy entry; ps ← rest; pass (p ∷ ps))

  -- parseTrustedProxies
  unfoldable pub parse_trusted_proxies : Bytes → Result ConfigError (List Prefix)
  parse_trusted_proxies raw = parse_entries (split b',' raw)

  -- TRUSTED_PROXIES, if it is set.
  unfoldable pub load_proxies : Bytes → Result ConfigError (List Prefix)
  load_proxies [] = pass []
  load_proxies (c ∷ cs) = parse_trusted_proxies (c ∷ cs)

  -- Load
  unfoldable pub load : (Bytes → Bytes) → Result ConfigError Config
  load getenv = do
    port ← load_port (getenv (codes "PORT"))
    let env = or_default (getenv (codes "ENV")) (codes "development") in
        if not (valid_env env) then fail (invalid_env env) else (do
          proxies ← load_proxies (getenv (codes "TRUSTED_PROXIES"))
          pass (record {
            port = port;
            env = env;
            log_level = or_default (getenv (codes "LOG_LEVEL")) (codes "info");
            database_url = getenv (codes "DATABASE_URL");
            trusted_proxies = proxies;
          }))
