-- ===== src/Http/Tests.antt =====
-- Runs of the HTTP middlewares.
use mathlib.Core.List.{Memᴰ}
use mascotapp.Base.{
  ℕ, ◌+◌, ◌≡◌, ◌≢◌, ◌⊎◌, ap, refl, true, List, [], ◌∷◌, ◌++◌, Option, none, some, Bytes, ◌=ᵇ◌,
  arith, codes, split, trim_space,
}
use mascotapp.Base.Results.{Result, pass, fail}
use mascotapp.Db.State.{State, Written, answered, current}
use mascotapp.Db.Samples.{uuid, empty_server}
use mascotapp.Auth.Token.{
  AccessClaims, Wire, TokenIssuer, Parser, TokenError, verify, parse_shelter, validate,
}
use mascotapp.Http.ClientIp.{
  Addr, ClientIpResolver, canonical, contains, is_trusted, entries, parse_client_addr, host_only,
  client_ip, forwarded_chain, scan,
}
use mascotapp.Http.ClientIp.Scan.{FromEntry, client_ip-appended, client_ip-source}
use mascotapp.Http.Origins.{
  Url, OriginAllowlist, allows, valid_origin, collect, new_origin_allowlist, is_state_changing,
  cors, require_trusted_origin,
}
use mascotapp.Http.Origins.Allowed.{Readable, cors-Readable}
use mascotapp.Http.Origins.Trusted.{IsTrusted, require_trusted_origin-IsTrusted}
use mascotapp.Http.Tenancy.Boundary.{
  tenant_route, Allowed, Verified, tenant_route-scope, tenant_route-refuses,
}
use mascotapp.Http.{Request, Context, Handler, served, forbidden, reply}

-- A toy netip: a text of one byte is an address of 10.0.0.0/24, and any other text of two or more
-- bytes one of 203.0.113.0/24.
abbrev toy_parse_addr : Bytes → Option Addr
toy_parse_addr [] = none
toy_parse_addr (a ∷ []) = some (Addr.v4 (167772160 + a))
toy_parse_addr (a ∷ b ∷ rest) = some (Addr.v4 (3405803776 + a))

abbrev toy_split : Bytes → Option (Bytes × Bytes)
toy_split addr = none

abbrev resolver : ClientIpResolver
resolver = record { trusted = (record { base = Addr.v4 167772160; bits = 24 }) ∷ [] }

abbrev proxy_text : Bytes
proxy_text = codes "p"

abbrev client_text : Bytes
client_text = codes "cc"

abbrev forged_text : Bytes
forged_text = codes "ff, zz"

abbrev proxy_addr : Addr
proxy_addr = Addr.v4 (167772160 + b'p')

abbrev client_addr : Addr
client_addr = Addr.v4 (3405803776 + b'c')

reads_proxy : parse_client_addr toy_parse_addr proxy_text ≡ some proxy_addr
unfolding parse_client_addr canonical trim_space
reads_proxy = refl

trusts_proxy : is_trusted resolver proxy_addr ≡ true
unfolding is_trusted contains
trusts_proxy = refl

client_ip-appended_example :
    client_ip toy_parse_addr toy_split resolver proxy_text
      ([] ++ (forged_text ++ b',' ∷ codes " cc, p") ∷ [])
    ≡ some client_addr
unfolding entries split trim_space parse_client_addr canonical host_only is_trusted contains
client_ip-appended_example =
    client_ip-appended toy_parse_addr resolver toy_split proxy_text proxy_addr client_addr []
      forged_text (codes " cc, p") client_text (proxy_text ∷ []) refl refl refl refl refl
      ((proxy_addr, reads_proxy, trusts_proxy), tt)

client_ip-source_example :
    (parse_client_addr toy_parse_addr (host_only toy_split proxy_text) ≡ some client_addr)
    ⊎ (((peer : Addr) × (parse_client_addr toy_parse_addr (host_only toy_split proxy_text)
            ≡ some peer)
          × (is_trusted resolver peer ≡ true))
        × FromEntry toy_parse_addr resolver toy_split
            (forwarded_chain (codes "zz, cc, p" ∷ []))
            client_addr)
unfolding client_ip entries forwarded_chain scan split trim_space parse_client_addr canonical
    host_only is_trusted contains
client_ip-source_example =
    client_ip-source toy_parse_addr resolver toy_split proxy_text client_addr
      (codes "zz, cc, p" ∷ []) refl

-- A toy net/url: every text is an https URL of the host that it spells.
abbrev toy_parse_url : Bytes → Option Url
toy_parse_url raw = some (record {
  scheme = codes "https";
  host = raw;
  path = [];
  raw_query = [];
  fragment = [];
  user = none;
})

abbrev web_origin : Bytes
web_origin = codes "https://m.example"

abbrev allowlist : OriginAllowlist
allowlist = record { allowed = web_origin ∷ [] }

made : new_origin_allowlist toy_parse_url (web_origin ∷ []) ≡ pass allowlist
unfolding new_origin_allowlist collect valid_origin ◌=ᵇ◌
made = refl

abbrev request : Bytes → Bytes → Request
request method origin = record {
  method = method;
  remote_addr = proxy_text;
  forwarded_for = [];
  authorization = codes "Bearer token";
  origin = origin;
  request_method = [];
  sec_fetch_site = codes "cross-site";
  shelter_path = uuid 2;
  shelter_query = [];
  shelter_header = [];
}

abbrev no_context : Context
no_context = record { client = none; claims = none; tx = none }

require_trusted_origin-IsTrusted_example :
    (IsTrusted (web_origin ∷ []) (request (codes "POST") (codes "https://evil.example"))
      × ((next : Handler)
          → require_trusted_origin allowlist next no_context
              (request (codes "POST") (codes "https://evil.example"))
              empty_server
            ≡ next no_context (request (codes "POST") (codes "https://evil.example")) empty_server))
    ⊎ ((IsTrusted (web_origin ∷ []) (request (codes "POST") (codes "https://evil.example")) → ⊥)
        × ((next : Handler)
            → require_trusted_origin allowlist next no_context
                (request (codes "POST") (codes "https://evil.example"))
                empty_server
              ≡ forbidden empty_server))
unfolding is_state_changing ◌=ᵇ◌
require_trusted_origin-IsTrusted_example =
    require_trusted_origin-IsTrusted toy_parse_url (web_origin ∷ []) allowlist made no_context
      (request (codes "POST") (codes "https://evil.example")) empty_server refl

abbrev greets : Handler
greets ctx r s = reply 200 (codes "hello") s

greets_silently :
    (o : Bytes) (s : State)
    → Readable o (greets no_context (request (codes "GET") web_origin) s).1
    → Readable o s
greets_silently o s (Memᴰ.head e) = ground (arith, e)
greets_silently o s (Memᴰ.tail m) = m

Readable-once :
    Readable web_origin
      (cors allowlist greets no_context (request (codes "GET") web_origin) empty_server).1
unfolding cors allows ◌=ᵇ◌
Readable-once = Memᴰ.tail (Memᴰ.tail (Memᴰ.head refl))

cors-Readable_example :
    ((web_origin ≡ web_origin) × (allows allowlist web_origin ≡ true) × (web_origin ≢ []))
    ⊎ Readable web_origin empty_server
cors-Readable_example =
    cors-Readable allowlist greets no_context (request (codes "GET") web_origin) empty_server
      web_origin (greets_silently web_origin) Readable-once

-- A token library of one token.
abbrev toy_parse : Parser → Bytes → Bytes → Option Wire
toy_parse p key raw = some (record {
  issuer = [];
  audience = [];
  subject = uuid 1;
  issued_at = 0;
  expires_at = 9;
  shelter_id = some (uuid 2);
  role = codes "owner";
  amr = codes "pwd" ∷ [];
})

abbrev token_issuer : TokenIssuer
token_issuer = record { secret = []; issuer = []; audience = [] }

-- It answers, and looks at its claims.
abbrev reads_claims : Handler
reads_claims ctx r s = elim ctx.claims [ none ↦ reply 500 [] s | some c ↦ reply 200 c.role s ]

abbrev says_owner : Handler
says_owner ctx r s = reply 200 (codes "owner") s

tenant_route-refuses_example :
    ((shelter : Bytes) × Allowed some toy_parse token_issuer 0 (request (codes "GET") []) shelter)
    ⊎ ((status : ℕ) × ((status ≡ 401) ⊎ (status ≡ 403))
        × (body : Bytes) × (before : List Written) × ((next : Handler)
            → tenant_route some toy_parse token_issuer 0 next no_context
                (request (codes "GET") [])
                empty_server
              ≡ (served, record empty_server { response = answered status body ∷ before })))
tenant_route-refuses_example =
    tenant_route-refuses some toy_parse token_issuer 0 no_context (request (codes "GET") [])
      empty_server

abbrev role_of : Result TokenError AccessClaims → Bytes
role_of (pass c) = c.role
role_of (fail e) = []

owner_only :
    (claims : AccessClaims) (shelter : Bytes) (c : Context) (t : State)
    → Verified some toy_parse token_issuer 0 (request (codes "GET") []) claims
    → claims.shelter_id ≡ some shelter
    → c.claims ≡ some claims
    → current t.shelter_setting ≡ some shelter
    → reads_claims c (request (codes "GET") []) t ≡ says_owner c (request (codes "GET") []) t
unfolding verify parse_shelter validate ◌=ᵇ◌
owner_only claims shelter c t (raw, bears, good) names has inside = ground (arith, ap role_of good)

tenant_route-scope_example :
    tenant_route some toy_parse token_issuer 0 reads_claims no_context
      (request (codes "GET") [])
      empty_server
    ≡ tenant_route some toy_parse token_issuer 0 says_owner no_context
        (request (codes "GET") [])
        empty_server
tenant_route-scope_example =
    tenant_route-scope some toy_parse token_issuer 0 reads_claims says_owner no_context
      (request (codes "GET") []) empty_server owner_only
