-- ===== src/Config/Tests.antt =====
-- A run of Load.
use mascotapp.Base.{
  ◌≡◌, refl, [], ◌∷◌, Option, none, some, Bytes, codes, ◌=ᵇ◌, split, trim_space, if◌then◌else◌,
}
use mascotapp.Base.Results.{pass}
use mascotapp.Http.ClientIp.{Addr, Prefix, client_ip, parse_client_addr, host_only}
use mascotapp.Config.Loaded.{load-client_ip}
use mascotapp.Config.{
  Config, load_port, atoi, magnitude, in_int64, read_digits, valid_env, single, parse_proxy,
  parse_entries, parse_trusted_proxies, load_proxies, load,
}

abbrev toy_parse_prefix : Bytes → Option Prefix
toy_parse_prefix text = none

abbrev toy_parse_addr : Bytes → Option Addr
toy_parse_addr text = some (Addr.v4 7)

abbrev toy_split : Bytes → Option (Bytes × Bytes)
toy_split text = none

abbrev environment : Bytes → Bytes
environment name =
    if name =ᵇ codes "PORT"
    then codes "8081"
    else if name =ᵇ codes "TRUSTED_PROXIES"
    then codes "a,b"
    else []

abbrev loaded : Config
loaded = record {
  port = 8081;
  env = codes "development";
  log_level = codes "info";
  database_url = [];
  trusted_proxies = single (Addr.v4 7) ∷ single (Addr.v4 7) ∷ [];
}

loads : load toy_parse_prefix toy_parse_addr environment ≡ pass loaded
unfolding load load_port atoi magnitude in_int64 read_digits valid_env load_proxies
    parse_trusted_proxies parse_entries parse_proxy split trim_space ◌=ᵇ◌
loads = refl

abbrev no_environment : Bytes → Bytes
no_environment name = []

abbrev defaults : Config
defaults = record {
  port = 8080;
  env = codes "development";
  log_level = codes "info";
  database_url = [];
  trusted_proxies = [];
}

loads_defaults : load toy_parse_prefix toy_parse_addr no_environment ≡ pass defaults
unfolding load load_port valid_env load_proxies ◌=ᵇ◌
loads_defaults = refl

load-client_ip_example :
    client_ip toy_parse_addr toy_split
      (record { trusted = [] })
      (codes "peer")
      (codes "1.2.3.4" ∷ [])
    ≡ parse_client_addr toy_parse_addr (host_only toy_split (codes "peer"))
load-client_ip_example =
    load-client_ip toy_parse_prefix toy_parse_addr toy_split no_environment defaults (codes "peer")
      (codes "1.2.3.4" ∷ []) loads_defaults refl
