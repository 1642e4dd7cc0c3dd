-- ===== src/Http/ClientIp.antt =====
-- apps/api/internal/httpapi/clientip.go: the address of the client behind the proxies. What
-- netip.ParseAddr reads of a text, and net.SplitHostPort, are parameters.
pub mod Scan
use mascotapp.Base.{
  ℕ, ◌+◌, ◌-◌, ◌/◌, ◌%◌, ◌^◌, Bool, true, false, not, ◌&&◌, List, [], ◌∷◌, ◌++◌, Option, none, some,
  Bytes, ◌==◌, leb, any, is_empty, split, trim_space, if◌then◌else◌,
}
use mathlib.Core.List.{reverse}

-- netip.Addr, but for the zero value: 32 bits, or 128 bits with a zone.
pub data Addr : Type 0 where
  v4 : ℕ → Addr
  v6 : ℕ → Bytes → Addr

-- netip.Prefix
pub record Prefix : Type 0 where
  pub base : Addr
  pub bits : ℕ

-- Addr.Unmap: ::ffff:0:0/96 holds the IPv4 addresses.
unfoldable pub unmap : Addr → Addr
unmap (v4 a) = v4 a
unmap (v6 a zone) = if a / 2 ^ 32 == 65535 then v4 (a % 2 ^ 32) else v6 a zone

-- addr.WithZone("").Unmap()
unfoldable pub canonical : Addr → Addr
canonical (v4 a) = v4 a
canonical (v6 a zone) = if a / 2 ^ 32 == 65535 then v4 (a % 2 ^ 32) else v6 a []

-- Prefix.Contains
unfoldable pub contains : Prefix → Addr → Bool
contains p (v4 a) = elim p.base [
  | v4 b ↦ leb p.bits 32 && (a / 2 ^ (32 - p.bits) == b / 2 ^ (32 - p.bits))
  | v6 b z ↦ false
]
contains p (v6 a zone) = elim p.base [
  | v4 b ↦ false
  | v6 b z ↦ is_empty zone && leb p.bits 128 && (a / 2 ^ (128 - p.bits) == b / 2 ^ (128 - p.bits))
]

-- ClientIPResolver
pub record ClientIpResolver : Type 0 where
  pub trusted : List Prefix

-- ClientIPResolver.isTrusted
unfoldable pub is_trusted : ClientIpResolver → Addr → Bool
is_trusted res addr = any (λ p. contains p addr) res.trusted

-- The inner loop of forwardedChain, on the entries of one header line.
unfoldable pub entries : List Bytes → List Bytes
entries [] = []
entries (e ∷ es) =
    let rest = entries es in
    let entry = trim_space e in if is_empty entry then rest else entry ∷ rest

-- forwardedChain
unfoldable pub forwarded_chain : List Bytes → List Bytes
forwarded_chain [] = []
forwarded_chain (value ∷ values) = entries (split b',' value) ++ forwarded_chain values

-- hostOnly
unfoldable pub host_only : (Bytes → Option (Bytes × Bytes)) → Bytes → Bytes
host_only split_host_port remote_addr = elim (split_host_port remote_addr) [
  | none ↦ remote_addr
  | some parts ↦ parts.0
]

module _ (parse_addr : Bytes → Option Addr) where
  -- parseClientAddr
  unfoldable pub parse_client_addr : Bytes → Option Addr
  parse_client_addr raw = elim (parse_addr (trim_space raw)) [
    | none ↦ none
    | some addr ↦ some (canonical addr)
  ]

  -- The loop of ClientIP, which goes down the chain from its right end.
  unfoldable pub scan : ClientIpResolver → Addr → List Bytes → Addr
  scan res peer [] = peer
  scan res peer (entry ∷ before) = elim (parse_client_addr entry) [
    | none ↦ peer
    | some addr ↦ elim (is_trusted res addr) [ true ↦ scan res peer before | false ↦ addr ]
  ]

  module _ (split_host_port : Bytes → Option (Bytes × Bytes)) where
    -- ClientIPResolver.ClientIP, on RemoteAddr and the values of X-Forwarded-For. The zero Addr is none.
    unfoldable pub client_ip : ClientIpResolver → Bytes → List Bytes → Option Addr
    client_ip res remote_addr forwarded =
        elim (parse_client_addr (host_only split_host_port remote_addr)) [
          | none ↦ none
          | some peer ↦ some (
              if not (is_trusted res peer)
              then peer
              else scan res peer (reverse (forwarded_chain forwarded)))
        ]
