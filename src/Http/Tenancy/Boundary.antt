-- ===== src/Http/Tenancy/Boundary.antt =====
-- The tenant boundary of httpapi/middleware_auth.go: RequireAuth around RequireTenant, whose scoper is
-- WithTenant.
use mascotapp.Base.{
  ℕ, ◌≡◌, ◌≢◌, ◌⊎◌, inl, inr, refl, ap, ◌∙◌, true, List, [], ◌∷◌, Option, some, Bytes, codes, ◌=ᵇ◌,
  =ᵇ_iff, All, Bool-cases, Option-cases, arith,
}
use mascotapp.Base.Results.{pass, Result-cases}
use mascotapp.Db.State.{State, Written, answered, header_set, current, M, statement}
use mascotapp.Db.Tenant.{nil_uuid, begin, set_tenant_scope, with_tenant}
use mascotapp.Auth.Token.{AccessClaims, TokenIssuer, Wire, Parser, verify}
use mascotapp.Http.{Request, Context, Handler, served, forbidden, as_callback}
use mascotapp.Http.Tenancy.{
  bearer_token, unauthorized, agrees_at, request_agrees_on_shelter, require_auth, require_tenant,
  after_scope, run_scoped,
}

abbrev unauthorized_before : State → List Written
unauthorized_before s = header_set (codes "WWW-Authenticate") (codes "Bearer") ∷ s.response

-- Callbacks that agree in the scope of the shelter cannot be told apart under WithTenant.
with_tenant-cong :
    (shelter : Bytes) (fn gn : M (Unit {0})) (s : State)
    → ((t : State) → current t.shelter_setting ≡ some shelter → fn t ≡ gn t)
    → with_tenant shelter fn s ≡ with_tenant shelter gn s
unfolding statement with_tenant
with_tenant-cong shelter fn gn s same =
    ground (arith, same (set_tenant_scope shelter (begin s).1).1)

module _ (parse_uuid : Bytes → Option Bytes) where
  run_scoped-cong :
      (shelter : Bytes) (next other : Handler) (ctx : Context) (r : Request) (s : State)
      → ((c : Context) (t : State)
          → c.claims ≡ ctx.claims
          → current t.shelter_setting ≡ some shelter
          → next c r t ≡ other c r t)
      → run_scoped with_tenant shelter next ctx r s ≡ run_scoped with_tenant shelter other ctx r s
  unfolding run_scoped
  run_scoped-cong shelter next other ctx r s same = ap after_scope (
      with_tenant-cong shelter _ _ s
        (λ t inside. ap as_callback (same (record ctx { tx = some tt }) t refl inside)))

  require_tenant-cong :
      (next other : Handler) (ctx : Context) (r : Request) (s : State)
      → ((claims : AccessClaims) (shelter : Bytes) (c : Context) (t : State)
          → ctx.claims ≡ some claims
          → claims.shelter_id ≡ some shelter
          → c.claims ≡ some claims
          → current t.shelter_setting ≡ some shelter
          → next c r t ≡ other c r t)
      → require_tenant parse_uuid with_tenant next ctx r s
        ≡ require_tenant parse_uuid with_tenant other ctx r s
  unfolding require_tenant
  require_tenant-cong next other ctx r s same = elim (Option-cases ctx.claims) [
    | inl none_ ↦ ground arith
    | inr (claims, has) ↦ elim (Option-cases claims.shelter_id) [
      | inl none_ ↦ ground arith
      | inr (shelter, names) ↦ ground (
        arith,
        run_scoped-cong shelter next other ctx r s
            (λ c t keeps inside. same claims shelter c t has names (keeps ∙ has) inside),
      )
    ]
  ]

  -- An identifier that the request does not name, or that is the claim's.
  abbrev Agrees : Bytes → Bytes → Type 0
  Agrees claimed raw = (raw ≡ []) ⊎ (parse_uuid raw ≡ some claimed)

  agrees_at_sound :
      (claimed raw : Bytes) → agrees_at parse_uuid claimed raw ≡ true → Agrees claimed raw
  agrees_at_sound claimed [] h = inl refl
  agrees_at_sound claimed (x ∷ xs) h = elim (Option-cases (parse_uuid (x ∷ xs))) [
    | inl none_ ↦ ground arith
    | inr (u, reads) ↦ inr (ground (arith, =ᵇ_iff u claimed))
  ]

  require_tenant-forbidden :
      (ctx : Context) (r : Request) (s : State) (claims : AccessClaims)
      → ctx.claims ≡ some claims
      → ((shelter : Bytes) × (claims.shelter_id ≡ some shelter)
          × (shelter ≢ nil_uuid)
          × All (Agrees shelter) (r.shelter_path ∷ r.shelter_query ∷ r.shelter_header ∷ []))
        ⊎ ((next : Handler) → require_tenant parse_uuid with_tenant next ctx r s ≡ forbidden s)
  unfolding require_tenant request_agrees_on_shelter
  require_tenant-forbidden ctx r s claims has = elim (Option-cases claims.shelter_id) [
    | inl none_ ↦ inr (λ next. ground arith)
    | inr (shelter, names) ↦ elim (Bool-cases (shelter =ᵇ nil_uuid)) [
      | inl zero_ ↦ inr (λ next. ground arith)
      | inr real ↦ elim (Bool-cases (request_agrees_on_shelter parse_uuid r shelter)) [
        | inr differs ↦ inr (λ next. ground arith)
        | inl agrees ↦ inl (
          shelter,
          names,
          (λ e. grind (arith, (=ᵇ_iff shelter nil_uuid).1 e)),
          (
            agrees_at_sound shelter r.shelter_path (ground arith),
            (
              agrees_at_sound shelter r.shelter_query (ground arith),
              (agrees_at_sound shelter r.shelter_header (ground arith), tt),
            ),
          ),
        )
      ]
    ]
  ]

  module _ (parse : Parser → Bytes → Bytes → Option Wire) (issuer : TokenIssuer) (now : ℕ) where
    -- A tenant-scoped route.
    abbrev pub tenant_route : Handler → Handler
    tenant_route next =
        require_auth parse_uuid parse issuer now (require_tenant parse_uuid with_tenant next)

    -- The bearer token of the request verifies, and its claims are these.
    abbrev pub Verified : Request → AccessClaims → Type 0
    Verified r claims =
        (raw : Bytes) × (bearer_token r.authorization ≡ some raw)
        × (verify parse_uuid parse issuer raw now ≡ pass claims)

    -- The handler of a tenant route runs only with the claims of a token that verifies, in a
    -- transaction scoped to the shelter of those claims: two handlers that agree there answer every
    -- request alike, whatever shelter its path, query and headers name.
    pub tenant_route-scope :
        (next other : Handler) (ctx : Context) (r : Request) (s : State)
        → ((claims : AccessClaims) (shelter : Bytes) (c : Context) (t : State)
            → Verified r claims
            → claims.shelter_id ≡ some shelter
            → c.claims ≡ some claims
            → current t.shelter_setting ≡ some shelter
            → next c r t ≡ other c r t)
        → tenant_route next ctx r s ≡ tenant_route other ctx r s
    unfolding require_auth
    tenant_route-scope next other ctx r s same =
        elim (Option-cases (bearer_token r.authorization)) [
          | inl none_ ↦ ground arith
          | inr (raw, bears) ↦ elim (Result-cases (verify parse_uuid parse issuer raw now)) [
            | inr (e, fails) ↦ ground arith
            | inl (claims, good) ↦ ground (
              arith,
              require_tenant-cong next other (record ctx { claims = some claims }) r s
                  (λ k shelter c t has names keeps inside.
                    let same_claims : claims ≡ k = ground (arith, has) in
                    same k shelter c t (raw, bears, good ∙ ap pass same_claims) names keeps inside),
            )
          ]
        ]

    -- The token of the request and what else it names allow the shelter.
    abbrev pub Allowed : Request → Bytes → Type 0
    Allowed r shelter =
        ((claims : AccessClaims) × Verified r claims × (claims.shelter_id ≡ some shelter))
        × (shelter ≢ nil_uuid)
        × All (Agrees shelter) (r.shelter_path ∷ r.shelter_query ∷ r.shelter_header ∷ [])

    -- A tenant route either has a token that verifies, whose shelter is not the nil uuid and every
    -- identifier of the request agrees with, or whatever its handler is it answers 401 or 403 and
    -- changes nothing but the response: no transaction is opened.
    pub tenant_route-refuses :
        (ctx : Context) (r : Request) (s : State)
        → ((shelter : Bytes) × Allowed r shelter)
          ⊎ ((status : ℕ) × ((status ≡ 401) ⊎ (status ≡ 403))
              × (body : Bytes) × (before : List Written) × ((next : Handler)
                  → tenant_route next ctx r s
                    ≡ (served, record s { response = answered status body ∷ before })))
    unfolding require_auth unauthorized forbidden
    tenant_route-refuses ctx r s = elim (Option-cases (bearer_token r.authorization)) [
      | inl none_ ↦
          inr (401, inl refl, codes "unauthorized", (unauthorized_before s), λ next. ground arith)
      | inr (raw, bears) ↦ elim (Result-cases (verify parse_uuid parse issuer raw now)) [
        | inr (e, fails) ↦
            inr (401, inl refl, codes "unauthorized", (unauthorized_before s), λ next. ground arith)
        | inl (claims, good) ↦
            elim (require_tenant-forbidden (record ctx { claims = some claims }) r s claims refl) [
              | inl (shelter, names, real, agrees) ↦
                  inl (shelter, ((claims, (raw, bears, good), names), real, agrees))
              | inr refused ↦ inr (
                403,
                inr refl,
                codes "forbidden",
                s.response,
                λ next. ground (arith, refused next),
              )
            ]
      ]
    ]
