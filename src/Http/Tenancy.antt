-- ===== src/Http/Tenancy.antt =====
-- apps/api/internal/httpapi/middleware_auth.go: RequireAuth and RequireTenant. uuid.Parse, the JWT
-- parser and the TenantScoper are parameters, as in the source.
pub mod Boundary
use mascotapp.Base.{
  ℕ, ◌≡◌, Bool, true, false, not, ◌&&◌, ◌||◌, List, [], ◌∷◌, Option, none, some, Bytes, codes, ◌=ᵇ◌,
  all, is_empty, cut, map, to_upper, if◌then◌else◌,
}
use mascotapp.Base.Results.{Result, pass, fail}
use mascotapp.Db.State.{State, header_set, Outcome, ok, err, panicked, M}
use mascotapp.Db.Tenant.{nil_uuid}
use mascotapp.Auth.Token.{AccessClaims, TokenIssuer, Wire, Parser, verify}
use mascotapp.Http.{
  Request, Context, Handler, Served, served, crashed, write, reply, forbidden, as_callback,
}

-- strings.EqualFold on ASCII texts
abbrev pub equal_fold : Bytes → Bytes → Bool
equal_fold a b = map to_upper a =ᵇ map to_upper b

-- bearerToken
unfoldable pub bearer_token : Bytes → Option Bytes
unfolding to_upper
bearer_token header = elim (cut b' ' header) [
  | none ↦ none
  | some parts ↦
      if not (equal_fold parts.0 (codes "Bearer")) || is_empty parts.1 then none else some parts.1
]

-- unauthorized
unfoldable pub unauthorized : State → Served × State
unauthorized s =
    reply 401 (codes "unauthorized")
      (write (header_set (codes "WWW-Authenticate") (codes "Bearer")) s)

-- requestAgreesOnShelter, on one of the three places.
abbrev pub agrees_at : (Bytes → Option Bytes) → Bytes → Bytes → Bool
agrees_at parse_uuid claimed raw =
    is_empty raw || elim (parse_uuid raw) [ none ↦ false | some parsed ↦ parsed =ᵇ claimed ]

-- requestAgreesOnShelter
unfoldable pub request_agrees_on_shelter : (Bytes → Option Bytes) → Request → Bytes → Bool
request_agrees_on_shelter parse_uuid r claimed =
    all (agrees_at parse_uuid claimed) (r.shelter_path ∷ r.shelter_query ∷ r.shelter_header ∷ [])

-- RequireAuth
unfoldable pub require_auth :
    (Bytes → Option Bytes)
    → (Parser → Bytes → Bytes → Option Wire)
    → TokenIssuer
    → ℕ
    → Handler
    → Handler
unfolding unauthorized
require_auth parse_uuid parse issuer now next ctx r s = elim (bearer_token r.authorization) [
  | none ↦ unauthorized s
  | some raw ↦ elim (verify parse_uuid parse issuer raw now) [
    | fail e ↦ unauthorized s
    | pass claims ↦ next (record ctx { claims = some claims }) r s
  ]
]

-- TenantScoper
abbrev pub TenantScoper : Type 0
TenantScoper = Bytes → M (Unit {0}) → M (Unit {0})

-- What RequireTenant does with the result of scope.
abbrev pub after_scope : Outcome (Unit {0}) × State → Served × State
after_scope (ok a, s) = (served, s)
after_scope (err e, s) = reply 500 (codes "internal error") s
after_scope (panicked p, s) = (crashed p, s)

-- The transaction of RequireTenant, for the shelter of the claim.
unfoldable pub run_scoped : TenantScoper → Bytes → Handler → Handler
run_scoped scope shelter next ctx r s =
    after_scope (scope shelter (λ t. as_callback (next (record ctx { tx = some tt }) r t)) s)

-- RequireTenant
unfoldable pub require_tenant : (Bytes → Option Bytes) → TenantScoper → Handler → Handler
unfolding forbidden
require_tenant parse_uuid scope next ctx r s = elim ctx.claims [
  | none ↦ reply 500 (codes "server misconfigured") s
  | some claims ↦ elim claims.shelter_id [
    | none ↦ forbidden s
    | some shelter ↦
        if shelter =ᵇ nil_uuid
        then forbidden s
        else if not (request_agrees_on_shelter parse_uuid r shelter)
        then forbidden s
        else run_scoped scope shelter next ctx r s
  ]
]
