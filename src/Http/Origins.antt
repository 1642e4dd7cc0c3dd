-- ===== src/Http/Origins.antt =====
-- apps/api/internal/httpapi: cors.go and csrf.go. net/url's Parse is a parameter.
pub mod Allowed
pub mod Trusted
use mascotapp.Base.{
  ℕ, ◌≡◌, Bool, true, false, not, ◌&&◌, ◌||◌, List, [], ◌∷◌, Option, none, some, Bytes, codes, ◌=ᵇ◌,
  any, is_empty, map, to_upper, if◌then◌else◌, is_some,
}
use mascotapp.Base.Results.{Result, pass, fail}
use mascotapp.Db.State.{State, added, header_set}
use mascotapp.Http.{Request, Context, Handler, Served, served, write, reply, forbidden}

-- What validOrigin reads of a url.URL.
pub record Url : Type 0 where
  pub scheme : Bytes
  pub host : Bytes
  pub path : Bytes
  pub raw_query : Bytes
  pub fragment : Bytes
  pub user : Option Bytes

pub data OriginError : Type 0 where
  empty_list empty_origin wildcard null_origin unparsed not_https no_host not_bare : OriginError

-- OriginAllowlist, a set of origins.
pub record OriginAllowlist : Type 0 where
  pub allowed : List Bytes

-- OriginAllowlist.Allows
unfoldable pub allows : OriginAllowlist → Bytes → Bool
allows a origin = any (λ o. o =ᵇ origin) a.allowed

module _ (parse_url : Bytes → Option Url) where
  -- validOrigin
  unfoldable pub valid_origin : Bytes → Result OriginError (Unit {0})
  valid_origin raw =
      if is_empty raw
      then fail empty_origin
      else if raw =ᵇ codes "*"
      then fail wildcard
      else if raw =ᵇ codes "null"
      then fail null_origin
      else elim (parse_url raw) [
        | none ↦ fail unparsed
        | some u ↦
            if not (u.scheme =ᵇ codes "https")
            then fail not_https
            else if is_empty u.host
            then fail no_host
            else if not (is_empty u.path)
                || not (is_empty u.raw_query)
                || not (is_empty u.fragment)
                || is_some u.user
            then fail not_bare
            else pass tt
      ]

  -- The loop of NewOriginAllowlist.
  unfoldable pub collect : List Bytes → Result OriginError (List Bytes)
  collect [] = pass []
  collect (o ∷ os) =
      let rest = collect os in
      elim (valid_origin o) [
        | fail e ↦ fail e
        | pass t ↦ elim rest [ fail e ↦ fail e | pass found ↦ pass (o ∷ found) ]
      ]

  -- NewOriginAllowlist
  unfoldable pub new_origin_allowlist : List Bytes → Result OriginError OriginAllowlist
  new_origin_allowlist [] = fail empty_list
  new_origin_allowlist (o ∷ os) = elim (collect (o ∷ os)) [
    | fail e ↦ fail e
    | pass found ↦ pass (record { allowed = found })
  ]

-- isStateChanging
unfoldable pub is_state_changing : Bytes → Bool
unfolding to_upper
is_state_changing method =
    let m = map to_upper method in
    not ((m =ᵇ codes "GET") || (m =ᵇ codes "HEAD") || (m =ᵇ codes "OPTIONS"))

-- The headers of an answer to an allowed origin.
abbrev pub cors_headers : Bytes → State → State
cors_headers origin s =
    write (header_set (codes "Access-Control-Allow-Credentials") (codes "true"))
      (write (header_set (codes "Access-Control-Allow-Origin") origin) s)

-- The answer to a preflight request.
abbrev pub preflight : State → Served × State
preflight s = reply 204 [] (
    write (header_set (codes "Access-Control-Max-Age") (codes "600")) (
      write
        (header_set (codes "Access-Control-Allow-Headers") (codes "Authorization, Content-Type"))
        (write
          (header_set (codes "Access-Control-Allow-Methods")
            (codes "GET, HEAD, POST, PUT, PATCH, DELETE, OPTIONS"))
          s)))

abbrev pub vary : State → State
vary = write (added (codes "Vary") (codes "Origin"))

-- CORS
unfoldable pub cors : OriginAllowlist → Handler → Handler
unfolding forbidden
cors allowlist next ctx r s =
    if is_empty r.origin
    then next ctx r (vary s)
    else if not (allows allowlist r.origin)
    then forbidden (vary s)
    else if (r.method =ᵇ codes "OPTIONS") && not (is_empty r.request_method)
    then preflight (cors_headers r.origin (vary s))
    else next ctx r (cors_headers r.origin (vary s))

-- RequireTrustedOrigin
unfoldable pub require_trusted_origin : OriginAllowlist → Handler → Handler
unfolding forbidden
require_trusted_origin allowlist next ctx r s =
    if not (is_state_changing r.method)
    then next ctx r s
    else if not (is_empty r.origin)
    then (if not (allows allowlist r.origin) then forbidden s else next ctx r s)
    else if r.sec_fetch_site =ᵇ codes "same-origin"
    then next ctx r s
    else forbidden s
