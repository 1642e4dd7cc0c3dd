-- ===== src/Http/Origins/Trusted.antt =====
-- Which requests RequireTrustedOrigin of httpapi/csrf.go lets through.
use mathlib.Core.List.{Memᴰ}
use mascotapp.Base.{
  ◌≡◌, ◌⊎◌, sym, ap, subst, inl, inr, true, false, List, [], Option, Bytes, codes, ◌=ᵇ◌, =ᵇ_iff,
  is_empty, is_empty-nil, Bool-cases, arith,
}
use mascotapp.Base.Results.{pass}
use mascotapp.Db.State.{State}
use mascotapp.Http.{Request, Context, Handler, forbidden}
use mascotapp.Http.Origins.{
  Url, OriginAllowlist, allows, valid_origin, new_origin_allowlist, is_state_changing,
  require_trusted_origin,
}
use mascotapp.Http.Origins.Allowed.{made-collect, member-All, new_origin_allowlist-allows}

-- A request that RequireTrustedOrigin is to let through, by the configured origins.
abbrev pub IsTrusted : List Bytes → Request → Type 0
IsTrusted origins r =
    Memᴰ r.origin origins ⊎ ((r.origin ≡ []) × (r.sec_fetch_site ≡ codes "same-origin"))

module _ (parse_url : Bytes → Option Url) (origins : List Bytes) (a : OriginAllowlist)
    (made : new_origin_allowlist parse_url origins ≡ pass a) where
  -- No allowlist allows the empty origin.
  allows-empty : allows a [] ≡ false
  allows-empty = elim (Bool-cases (allows a [])) [
    | inr refused ↦ refused
    | inl fine ↦
        let (_, _, valid) = made-collect parse_url origins a made in
        let m = (new_origin_allowlist-allows parse_url origins a [] made).1.0 fine in
        let bad : valid_origin parse_url [] ≡ pass tt =
          member-All parse_url (λ z. valid_origin parse_url z ≡ pass tt) origins [] m valid in
        absurd (unfold valid_origin in ground (arith, bad))
  ]

  -- With an allowlist that NewOriginAllowlist made, a state-changing request passes
  -- RequireTrustedOrigin exactly from a configured origin, or without an Origin from a page of the same
  -- origin; it then reaches the handler as it came. Any other is answered 403 whatever the handler is.
  pub require_trusted_origin-IsTrusted :
      (ctx : Context) (r : Request) (s : State)
      → is_state_changing r.method ≡ true
      → (IsTrusted origins r
          × ((next : Handler) → require_trusted_origin a next ctx r s ≡ next ctx r s))
        ⊎ ((IsTrusted origins r → ⊥)
            × ((next : Handler) → require_trusted_origin a next ctx r s ≡ forbidden s))
  unfolding require_trusted_origin
  require_trusted_origin-IsTrusted ctx r s changing =
      let allowed = (new_origin_allowlist-allows parse_url origins a r.origin made).1 in
      elim (Bool-cases (is_empty r.origin)) [
        | inr named ↦ elim (Bool-cases (allows a r.origin)) [
          | inl fine ↦ inl (inl (allowed.0 fine), λ next. ground arith)
          | inr wrong ↦ inr (
            (λ trusted. elim trusted [
              | inl m ↦ absurd (ground (arith, allowed.1 m, wrong))
              | inr bare ↦ grind (arith, named, ap is_empty bare.0)
            ]),
            λ next. ground arith,
          )
        ]
        | inl bare ↦ elim (Bool-cases (r.sec_fetch_site =ᵇ codes "same-origin")) [
          | inl same ↦ inl (
            inr (
              is_empty-nil r.origin bare,
              (=ᵇ_iff r.sec_fetch_site (codes "same-origin")).0 same,
            ),
            λ next. ground arith,
          )
          | inr other ↦ inr (
            (λ trusted. elim trusted [
              | inl m ↦
                  let no =
                    subst (λ o. allows a o ≡ false) (sym (is_empty-nil r.origin bare))
                      allows-empty in
                  absurd (ground (arith, allowed.1 m, no))
              | inr twin ↦
                  grind (arith, other, (=ᵇ_iff r.sec_fetch_site (codes "same-origin")).1 twin.1)
            ]),
            λ next. ground arith,
          )
        ]
      ]
