-- ===== src/Http/Origins/Allowed.antt =====
-- What the origin allowlist of httpapi/cors.go and csrf.go promises.
use mathlib.Core.List.{Memᴰ}
use mascotapp.Base.{
  ◌≡◌, ◌≢◌, ◌⊎◌, ◌↔◌, sym, ap, subst, inl, inr, true, not, ◌&&◌, List, [], ◌∷◌, Option, none, some,
  Bytes, codes, ◌=ᵇ◌, =ᵇ_iff, any, All, is_empty, is_empty-nil, Bool-cases, Option-cases, arith,
}
use mascotapp.Base.Results.{pass, Result-cases}
use mascotapp.Db.State.{State, header_set}
use mascotapp.Http.{Request, Context, Handler, Served, forbidden}
use mascotapp.Http.Origins.{
  Url, OriginAllowlist, allows, valid_origin, collect, new_origin_allowlist, cors, vary,
  cors_headers, preflight,
}

member-any : (o : Bytes) (os : List Bytes) → Memᴰ o os → any (λ x. x =ᵇ o) os ≡ true
member-any o (x ∷ xs) (Memᴰ.head e) = ground (arith, (=ᵇ_iff x o).1 (sym e))
member-any o (x ∷ xs) (Memᴰ.tail m) = ground (arith, member-any o xs m)
member-any o [] m = elim m [ ]

any-member : (o : Bytes) (os : List Bytes) → any (λ x. x =ᵇ o) os ≡ true → Memᴰ o os
any-member o [] h = ground arith
any-member o (x ∷ xs) h = elim (Bool-cases (x =ᵇ o)) [
  | inl same ↦ Memᴰ.head (sym ((=ᵇ_iff x o).0 same))
  | inr differs ↦ Memᴰ.tail (any-member o xs (ground arith))
]

module _ (parse_url : Bytes → Option Url) where
  -- An https URL with a host and nothing behind it.
  abbrev pub IsBare : Bytes → Type 0
  IsBare o =
      (u : Url) × (parse_url o ≡ some u)
      × (u.scheme ≡ codes "https")
      × (u.host ≢ [])
      × (u.path ≡ [])
      × (u.raw_query ≡ [])
      × (u.fragment ≡ [])
      × (u.user ≡ none)

  valid_origin-IsBare :
      (o : Bytes)
      → valid_origin parse_url o ≡ pass tt
      → (o ≢ codes "*") × (o ≢ codes "null") × IsBare o
  unfolding valid_origin
  valid_origin-IsBare o h = elim (Option-cases (parse_url o)) [
    | inl none_ ↦ ground arith
    | inr (u, reads) ↦ (
      (λ e. grind (arith, h, (=ᵇ_iff o (codes "*")).1 e)),
      (λ e. grind (arith, h, (=ᵇ_iff o (codes "null")).1 e)),
      (
        u,
        reads,
        (=ᵇ_iff u.scheme (codes "https")).0 (ground arith),
        (λ e. grind (arith, h, ap is_empty e)),
        is_empty-nil u.path (ground arith),
        is_empty-nil u.raw_query (ground arith),
        is_empty-nil u.fragment (ground arith),
        ground arith,
      ),
    )
  ]

  collect-origins :
      (os found : List Bytes)
      → collect parse_url os ≡ pass found
      → (found ≡ os) × All (λ o. valid_origin parse_url o ≡ pass tt) os
  unfolding collect
  collect-origins [] found h = (ground arith, tt)
  collect-origins (o ∷ os) found h = elim (Result-cases (valid_origin parse_url o)) [
    | inr (e, bad) ↦ ground arith
    | inl (t, good) ↦ elim (Result-cases (collect parse_url os)) [
      | inr (e, bad) ↦ ground arith
      | inl (rest, more) ↦
          let later = collect-origins os rest more in
          (ground (arith, later.0), (ground arith, later.1))
    ]
  ]

  pub member-All : (P : Bytes → Type 0) (os : List Bytes) (o : Bytes) → Memᴰ o os → All P os → P o
  member-All P [] o m h = elim m [ ]
  member-All P (x ∷ xs) o (Memᴰ.head e) h = subst P (sym e) h.0
  member-All P (x ∷ xs) o (Memᴰ.tail m) h = member-All P xs o m h.1

  pub made-collect :
      (origins : List Bytes) (a : OriginAllowlist)
      → new_origin_allowlist parse_url origins ≡ pass a
      → (origins ≢ [])
        × (a.allowed ≡ origins)
        × All (λ o. valid_origin parse_url o ≡ pass tt) origins
  unfolding new_origin_allowlist
  made-collect [] a h = ground arith
  made-collect (o ∷ os) a h = elim (Result-cases (collect parse_url (o ∷ os))) [
    | inr (e, bad) ↦ ground arith
    | inl (found, good) ↦
        let valid = collect-origins (o ∷ os) found good in
        ((λ e. ground (arith, e)), ground (arith, h, valid.0), valid.1)
  ]

  -- An allowlist that NewOriginAllowlist made allows exactly the origins of the configuration, and
  -- that configuration is not empty.
  pub new_origin_allowlist-allows :
      (origins : List Bytes) (a : OriginAllowlist) (o : Bytes)
      → new_origin_allowlist parse_url origins ≡ pass a
      → (origins ≢ []) × ((allows a o ≡ true) ↔ Memᴰ o origins)
  unfolding allows
  new_origin_allowlist-allows origins a o h =
      let (some_, same, valid) = made-collect origins a h in
      (
        some_,
        (
          (λ e. any-member o origins (subst (λ l. any (λ y. y =ᵇ o) l ≡ true) same e)),
          (λ m. subst (λ l. any (λ y. y =ᵇ o) l ≡ true) (sym same) (member-any o origins m)),
        ),
      )

  -- Each origin that such an allowlist allows is a bare https origin, not the wildcard and not `null`.
  pub allows-IsBare :
      (origins : List Bytes) (a : OriginAllowlist) (o : Bytes)
      → new_origin_allowlist parse_url origins ≡ pass a
      → allows a o ≡ true
      → (o ≢ codes "*") × (o ≢ codes "null") × IsBare o
  allows-IsBare origins a o h fine =
      let (_, _, valid) = made-collect origins a h in
      valid_origin-IsBare o (
        member-All (λ z. valid_origin parse_url z ≡ pass tt) origins o
          ((new_origin_allowlist-allows origins a o h).1.0 fine) valid)

-- The header that lets a page of an origin read a response.
abbrev pub Readable : Bytes → State → Type 0
Readable o s = Memᴰ (header_set (codes "Access-Control-Allow-Origin") o) s.response

Readable-vary : (o : Bytes) (s : State) → Readable o (vary s) → Readable o s
Readable-vary o s (Memᴰ.head e) = ground (arith, e)
Readable-vary o s (Memᴰ.tail m) = m

Readable-forbidden : (o : Bytes) (s : State) → Readable o (forbidden s).1 → Readable o s
unfolding forbidden
Readable-forbidden o s (Memᴰ.head e) = ground (arith, e)
Readable-forbidden o s (Memᴰ.tail m) = m

Readable-cors_headers :
    (o origin : Bytes) (s : State)
    → Readable o (cors_headers origin s)
    → (o ≡ origin) ⊎ Readable o s
Readable-cors_headers o origin s (Memᴰ.head e) = ground (arith, e)
Readable-cors_headers o origin s (Memᴰ.tail (Memᴰ.head e)) = inl (ground (arith, e))
Readable-cors_headers o origin s (Memᴰ.tail (Memᴰ.tail m)) = inr m

Readable-preflight : (o : Bytes) (s : State) → Readable o (preflight s).1 → Readable o s
Readable-preflight o s (Memᴰ.head e) = ground (arith, e)
Readable-preflight o s (Memᴰ.tail (Memᴰ.head e)) = ground (arith, e)
Readable-preflight o s (Memᴰ.tail (Memᴰ.tail (Memᴰ.head e))) = ground (arith, e)
Readable-preflight o s (Memᴰ.tail (Memᴰ.tail (Memᴰ.tail (Memᴰ.head e)))) = ground (arith, e)
Readable-preflight o s (Memᴰ.tail (Memᴰ.tail (Memᴰ.tail (Memᴰ.tail m)))) = m

-- CORS makes a response readable for no origin but the request's own, and for that one only when the
-- allowlist has it; so for no origin at all when the request names none.
pub cors-Readable :
    (a : OriginAllowlist) (next : Handler) (ctx : Context) (r : Request) (s : State) (o : Bytes)
    → ((t : State) → Readable o (next ctx r t).1 → Readable o t)
    → Readable o (cors a next ctx r s).1
    → ((o ≡ r.origin) × (allows a o ≡ true) × (r.origin ≢ [])) ⊎ Readable o s
unfolding cors
cors-Readable a next ctx r s o silent h =
    let moved : (x y : Served × State) → x ≡ y → Readable o x.1 → Readable o y.1 =
      λ x y e m. subst (λ (z : Served × State). Readable o z.1) e m in
    elim (Bool-cases (is_empty r.origin)) [
      | inl bare ↦ inr (
          Readable-vary o s
            (silent (vary s) (moved (cors a next ctx r s) (next ctx r (vary s)) (ground arith) h)))
      | inr named ↦ elim (Bool-cases (allows a r.origin)) [
        | inr wrong ↦ inr (
            Readable-vary o s (
              Readable-forbidden o (vary s)
                (moved (cors a next ctx r s) (forbidden (vary s)) (ground arith) h)))
        | inl fine ↦
            let own : (o ≡ r.origin) → (o ≡ r.origin) × (allows a o ≡ true) × (r.origin ≢ []) = λ e.
              (
                e,
                subst (λ x. allows a x ≡ true) (sym e) fine,
                λ n. grind (arith, named, ap is_empty n),
              ) in
            elim (Bool-cases ((r.method =ᵇ codes "OPTIONS") && not (is_empty r.request_method))) [
              | inl asks ↦
                  elim (Readable-cors_headers o r.origin (vary s) (
                    Readable-preflight o (cors_headers r.origin (vary s)) (
                      moved (cors a next ctx r s) (preflight (cors_headers r.origin (vary s)))
                        (ground arith) h))) [
                          | inl e ↦ inl (own e)
                          | inr m ↦ inr (Readable-vary o s m)
                        ]
              | inr goes ↦
                  elim (Readable-cors_headers o r.origin (vary s) (
                    silent (cors_headers r.origin (vary s)) (
                      moved (cors a next ctx r s) (next ctx r (cors_headers r.origin (vary s)))
                        (ground arith) h))) [
                          | inl e ↦ inl (own e)
                          | inr m ↦ inr (Readable-vary o s m)
                        ]
            ]
      ]
    ]
