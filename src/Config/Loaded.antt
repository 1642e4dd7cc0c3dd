-- ===== src/Config/Loaded.antt =====
-- What Load of config/config.go promises.
use mascotapp.Base.{
  ℕ, ◌≤◌, ◌≡◌, ◌≢◌, ◌⊎◌, refl, inl, inr, true, List, [], ◌∷◌, Option, none, some, Bytes, codes,
  ◌=ᵇ◌, =ᵇ_iff, is_empty, is_empty-nil, subst, split, trim_space, Bool-cases, Option-cases, arith,
}
use mascotapp.Base.Results.{pass, Result-cases, bind-pass, ◌>>=◌}
use mascotapp.Http.ClientIp.{Addr, Prefix, client_ip, is_trusted, parse_client_addr, host_only}
use mascotapp.Config.{
  Config, load_port, valid_env, or_default, masked, single, parse_proxy, parse_entries,
  parse_trusted_proxies, load_proxies, load,
}

load_port-range : (raw : Bytes) (port : ℕ) → load_port raw ≡ pass port → (1 ≤ port) × (port ≤ 65535)
unfolding load_port
load_port-range [] port h = (ground arith, ground arith)
load_port-range (c ∷ cs) port h = (ground arith, ground arith)

valid_env-cases :
    (env : Bytes)
    → valid_env env ≡ true
    → (env ≡ codes "development") ⊎ ((env ≡ codes "staging") ⊎ (env ≡ codes "production"))
unfolding valid_env
valid_env-cases env h = elim (Bool-cases (env =ᵇ codes "development")) [
  | inl e ↦ inl ((=ᵇ_iff env (codes "development")).0 e)
  | inr d ↦ elim (Bool-cases (env =ᵇ codes "staging")) [
    | inl e ↦ inr (inl ((=ᵇ_iff env (codes "staging")).0 e))
    | inr s ↦ inr (inr ((=ᵇ_iff env (codes "production")).0 (ground arith)))
  ]
]

-- What Load builds.
abbrev made : (Bytes → Bytes) → ℕ → List Prefix → Config
made getenv port proxies = record {
  port = port;
  env = or_default (getenv (codes "ENV")) (codes "development");
  log_level = or_default (getenv (codes "LOG_LEVEL")) (codes "info");
  database_url = getenv (codes "DATABASE_URL");
  trusted_proxies = proxies;
}

module _ (parse_prefix : Bytes → Option Prefix) (parse_addr : Bytes → Option Addr) where
  -- The entries of a list that are not blank, and the prefix that each one denotes, in their order.
  pub data Denotes : List Bytes → List Prefix → Type 0 where
    none_left : Denotes [] []
    blank :
        {e : Bytes} {es : List Bytes} {ps : List Prefix}
        → trim_space e ≡ []
        → Denotes es ps
        → Denotes (e ∷ es) ps
    range :
        {e : Bytes} {es : List Bytes} {ps : List Prefix} (p : Prefix)
        → parse_prefix (trim_space e) ≡ some p
        → Denotes es ps
        → Denotes (e ∷ es) (masked p ∷ ps)
    host :
        {e : Bytes} {es : List Bytes} {ps : List Prefix} (a : Addr)
        → parse_prefix (trim_space e) ≡ none
        → parse_addr (trim_space e) ≡ some a
        → Denotes es ps
        → Denotes (e ∷ es) (single a ∷ ps)

  parse_entries-Denotes :
      (es : List Bytes) (ps : List Prefix)
      → parse_entries parse_prefix parse_addr es ≡ pass ps
      → Denotes es ps
  unfolding parse_entries parse_proxy
  parse_entries-Denotes [] ps h =
      let none_ : [] ≡ ps = ground arith in subst (Denotes []) none_ none_left
  parse_entries-Denotes (e ∷ es) ps h = elim (Bool-cases (is_empty (trim_space e))) [
    | inl skip ↦
        blank (is_empty-nil (trim_space e) skip) (parse_entries-Denotes es ps (ground arith))
    | inr keeps ↦ elim (Result-cases (parse_entries parse_prefix parse_addr es)) [
      | inr (later, bad) ↦ ground arith
      | inl (qs, good) ↦ elim (Option-cases (parse_prefix (trim_space e))) [
        | inr (p, reads) ↦
            let whole : masked p ∷ qs ≡ ps = ground arith in
            subst (Denotes (e ∷ es)) whole (range p reads (parse_entries-Denotes es qs good))
        | inl unread ↦ elim (Option-cases (parse_addr (trim_space e))) [
          | inl garbage ↦ ground arith
          | inr (a, reads) ↦
              let whole : single a ∷ qs ≡ ps = ground arith in
              subst (Denotes (e ∷ es)) whole
                (host a unread reads (parse_entries-Denotes es qs good))
        ]
      ]
    ]
  ]

  -- What the list of trusted proxies says.
  abbrev pub SaysProxies : Bytes → List Prefix → Type 0
  SaysProxies raw ps = ((raw ≡ []) × (ps ≡ [])) ⊎ ((raw ≢ []) × Denotes (split b',' raw) ps)

  load_proxies-says :
      (raw : Bytes) (ps : List Prefix)
      → load_proxies parse_prefix parse_addr raw ≡ pass ps
      → SaysProxies raw ps
  unfolding load_proxies parse_trusted_proxies
  load_proxies-says [] ps h = inl (refl, ground arith)
  load_proxies-says (c ∷ cs) ps h =
      inr ((λ e. ground (arith, e)), parse_entries-Denotes (split b',' (c ∷ cs)) ps h)

  -- A configuration that Load accepts has a port of a TCP listener, one of the three environments, and
  -- one trusted range for each entry of TRUSTED_PROXIES that is not blank, in their order: no entry is
  -- dropped. Without TRUSTED_PROXIES no range is trusted.
  pub load-pass :
      (getenv : Bytes → Bytes) (cfg : Config)
      → load parse_prefix parse_addr getenv ≡ pass cfg
      → (1 ≤ cfg.port)
        × (cfg.port ≤ 65535)
        × ((cfg.env ≡ codes "development")
            ⊎ ((cfg.env ≡ codes "staging") ⊎ (cfg.env ≡ codes "production")))
        × SaysProxies (getenv (codes "TRUSTED_PROXIES")) cfg.trusted_proxies
  unfolding load
  load-pass getenv cfg h =
      let (port, ported, rest) = bind-pass (load_port (getenv (codes "PORT"))) _ cfg h in
      let env = or_default (getenv (codes "ENV")) (codes "development") in
      elim (Bool-cases (valid_env env)) [
        | inr bad ↦ ground arith
        | inl good ↦
            let on : (load_proxies parse_prefix parse_addr (getenv (codes "TRUSTED_PROXIES"))
                  >>= λ ps. pass (made getenv port ps))
                ≡ pass cfg =
              ground (arith, rest) in
            let (proxies, listed, last) =
              bind-pass (load_proxies parse_prefix parse_addr (getenv (codes "TRUSTED_PROXIES")))
                (λ ps. pass (made getenv port ps)) cfg on in
            let is : made getenv port proxies ≡ cfg = ground arith in
            let range_ = load_port-range (getenv (codes "PORT")) port ported in
            subst
              (λ c.
                (1 ≤ c.port)
                × (c.port ≤ 65535)
                × ((c.env ≡ codes "development")
                    ⊎ ((c.env ≡ codes "staging") ⊎ (c.env ≡ codes "production")))
                × SaysProxies (getenv (codes "TRUSTED_PROXIES")) c.trusted_proxies)
              is (range_.0, range_.1, valid_env-cases env good, load_proxies-says _ proxies listed)
      ]

  module _ (split_host_port : Bytes → Option (Bytes × Bytes)) where
    -- On a deployment without TRUSTED_PROXIES the address of a client is the peer's own, whatever
    -- X-Forwarded-For says.
    pub load-client_ip :
        (getenv : Bytes → Bytes) (cfg : Config) (remote : Bytes) (lines : List Bytes)
        → load parse_prefix parse_addr getenv ≡ pass cfg
        → getenv (codes "TRUSTED_PROXIES") ≡ []
        → client_ip parse_addr split_host_port
            (record { trusted = cfg.trusted_proxies })
            remote
            lines
          ≡ parse_client_addr parse_addr (host_only split_host_port remote)
    unfolding client_ip is_trusted
    load-client_ip getenv cfg remote lines h unset =
        let (_, _, _, says) = load-pass getenv cfg h in
        let no_proxy : cfg.trusted_proxies ≡ [] = elim says [
          | inl e ↦ e.1
          | inr set ↦ elim (set.0 unset) [ ]
        ] in
        elim (Option-cases (parse_client_addr parse_addr (host_only split_host_port remote))) [
          | inl garbage ↦ ground arith
          | inr (peer, reads) ↦ ground (arith, no_proxy)
        ]
