-- ===== src/Auth/Token/Verified.antt =====
-- What the access tokens of auth/token.go promise.
use mascotapp.Base.{
  ℕ, ◌+◌, ◌*◌, ◌≤◌, ◌≡◌, ◌≢◌, ◌⊎◌, ◌∙◌, refl, ap, subst, inl, inr, Bool, true, false, ◌&&◌, ◌||◌,
  not, any, length, [], Option, none, some, Bytes, ◌=ᵇ◌, =ᵇ_iff, =ᵇ_refl, is_empty, ltb, leb, arith,
  Option-cases, if◌then◌else◌,
}
use mascotapp.Base.Results.{pass, fail, Result-cases}
use mascotapp.Db.Tenant.{nil_uuid}
use mascotapp.Auth.Token.{
  AccessClaims, Wire, TokenIssuer, Parser, invalid_token, second, access_token_algorithm,
  access_token_lifetime, no_methods, validate, parser_of, wire_of, issue, parse_shelter, verify,
}

-- The issuer or the audience that a parser expects, where it was given one.
abbrev pub expected : Bytes → Bytes → Bool
expected option claimed = is_empty option || (claimed =ᵇ option)

-- The rules that the JWT library applies to a token that it signed, by the options of its parser: the
-- algorithm, the issuer, the audience, not expired, not issued in the future.
abbrev pub accepted : Parser → Wire → Bool
accepted p w =
    any (λ m. m =ᵇ access_token_algorithm) p.valid_methods
    && expected p.issuer w.issuer
    && expected p.audience w.audience
    && ltb p.now (w.expires_at * second)
    && (not p.issued_at || leb (w.issued_at * second) p.now)

-- What a shelter of the claims is: a uuid has sixteen bytes.
abbrev pub IsUuid : Option Bytes → Type 0
IsUuid none = Unit
IsUuid (some u) = length u ≡ 16

validate_sound :
    (c : AccessClaims)
    → validate c ≡ pass tt
    → (c.subject ≢ nil_uuid) × (c.role ≢ []) × (c.amr ≢ [])
unfolding validate
validate_sound c h = (
  (λ e. grind (arith, h, (=ᵇ_iff c.subject nil_uuid).1 e)),
  (λ e. grind (arith, h, ap is_empty e)),
  (λ e. grind (arith, h, ap no_methods e)),
)

module _ (uuid_text : Bytes → Bytes) (parse_uuid : Bytes → Option Bytes)
    (sign : Bytes → Wire → Option Bytes) (parse : Parser → Bytes → Bytes → Option Wire) where
  -- The shelter that a token names, or that it names none.
  abbrev pub SameShelter : Option Bytes → Option Bytes → Type 0
  SameShelter wire claimed =
      ((wire ≡ none) × (claimed ≡ none))
      ⊎ ((text : Bytes) × (u : Bytes) × (wire ≡ some text)
          × (parse_uuid text ≡ some u)
          × (claimed ≡ some u))

  parse_shelter-same :
      (wire claimed : Option Bytes)
      → parse_shelter parse_uuid parse wire ≡ pass claimed
      → SameShelter wire claimed
  unfolding parse_shelter
  parse_shelter-same none claimed h = inl (refl, ground arith)
  parse_shelter-same (some text) claimed h = elim (Option-cases (parse_uuid text)) [
    | inl none_ ↦ ground arith
    | inr (u, reads) ↦ inr (text, u, refl, reads, ground arith)
  ]

  -- The claims that Verify returns are those of a token that the JWT library accepted under the own
  -- secret, issuer, audience, the one algorithm and the instant. They name a user, a role and a method
  -- of authentication, and a shelter only if the token does: a shelter_id that is not a uuid is
  -- refused, and never read as no shelter.
  pub verify-claims :
      (i : TokenIssuer) (raw : Bytes) (now : ℕ) (c : AccessClaims)
      → verify parse_uuid parse i raw now ≡ pass c
      → (c.subject ≢ nil_uuid)
        × (c.role ≢ [])
        × (c.amr ≢ [])
        × ((w : Wire) × (parse (parser_of i now) i.secret raw ≡ some w)
            × (parse_uuid w.subject ≡ some c.subject)
            × SameShelter w.shelter_id c.shelter_id
            × (c.role ≡ w.role)
            × (c.amr ≡ w.amr))
  unfolding verify
  verify-claims i raw now c h = elim (Option-cases (parse (parser_of i now) i.secret raw)) [
    | inl none_ ↦ ground arith
    | inr (w, reads) ↦ elim (Option-cases (parse_uuid w.subject)) [
      | inl none_ ↦ ground arith
      | inr (subject, named) ↦ elim (Result-cases (parse_shelter parse_uuid parse w.shelter_id)) [
        | inr (e, bad) ↦ ground arith
        | inl (shelter, scoped) ↦
            let built : AccessClaims = record {
              subject = subject;
              shelter_id = shelter;
              role = w.role;
              amr = w.amr;
            } in
            elim (Result-cases (validate built)) [
              | inr (e, bad) ↦ ground arith
              | inl (t, good) ↦
                  let same : built ≡ c = ground arith in
                  let real = validate_sound built good in
                  subst
                    (λ k.
                      (k.subject ≢ nil_uuid)
                      × (k.role ≢ [])
                      × (k.amr ≢ [])
                      × ((w : Wire) × (parse (parser_of i now) i.secret raw ≡ some w)
                          × (parse_uuid w.subject ≡ some k.subject)
                          × SameShelter w.shelter_id k.shelter_id
                          × (k.role ≡ w.role)
                          × (k.amr ≡ w.amr)))
                    same
                    (
                      real.0,
                      real.1,
                      real.2,
                      (w, reads, named, parse_shelter-same w.shelter_id shelter scoped, refl, refl),
                    )
            ]
      ]
    ]
  ]

  issue-signs :
      (i : TokenIssuer) (c : AccessClaims) (now : ℕ) (raw : Bytes)
      → issue uuid_text sign i c now ≡ pass raw
      → validate c ≡ pass tt
  unfolding issue
  issue-signs i c now raw h = elim (Result-cases (validate c)) [
    | inr (e, bad) ↦ ground arith
    | inl (t, good) ↦ good
  ]

  verify-run :
      (i : TokenIssuer) (raw : Bytes) (now : ℕ) (w : Wire) (c : AccessClaims)
      → parse (parser_of i now) i.secret raw ≡ some w
      → parse_uuid w.subject ≡ some c.subject
      → parse_shelter parse_uuid parse w.shelter_id ≡ pass c.shelter_id
      → w.role ≡ c.role
      → w.amr ≡ c.amr
      → validate c ≡ pass tt
      → verify parse_uuid parse i raw now ≡ pass c
  unfolding verify
  verify-run i raw now w c reads named scoped role amr good =
      rw (reads, named, scoped, role, amr) (ground (arith, good))

  verify-none :
      (i : TokenIssuer) (raw : Bytes) (now : ℕ)
      → parse (parser_of i now) i.secret raw ≡ none
      → verify parse_uuid parse i raw now ≡ fail invalid_token
  unfolding verify
  verify-none i raw now refused = rw refused refl

  own_shelter :
      (texts : (u : Bytes) → length u ≡ 16 → parse_uuid (uuid_text u) ≡ some u) (o : Option Bytes)
      → IsUuid o
      → parse_shelter parse_uuid parse (elim o [ none ↦ none | some u ↦ some (uuid_text u) ])
        ≡ pass o
  unfolding parse_shelter
  own_shelter texts none h = refl
  own_shelter texts (some u) h = ground (arith, texts u h)

  module _ (i : TokenIssuer) (c : AccessClaims) (now : ℕ) (raw : Bytes)
      (issued : issue uuid_text sign i c now ≡ pass raw)
      (reads : (t : ℕ)
        → parse (parser_of i t) i.secret raw ≡ (
            if accepted (parser_of i t) (wire_of uuid_text sign i c now)
            then some (wire_of uuid_text sign i c now)
            else none)) where
    -- A token that Issue returned verifies as the claims that it was issued for, from then on until one
    -- second before its fifteen minutes are over. The parser of Verify reads, at each instant, the token
    -- that Issue signed by the rules `accepted`; a uuid, which has sixteen bytes, is read from its own
    -- text; the claims hold uuids.
    pub verify-issue :
        (texts : (u : Bytes) → length u ≡ 16 → parse_uuid (uuid_text u) ≡ some u)
        → length c.subject ≡ 16
        → IsUuid c.shelter_id
        → (later : ℕ) → now ≤ later
        → later + second ≤ now + access_token_lifetime
        → verify parse_uuid parse i raw later ≡ pass c
    verify-issue texts subject shelter later from until =
        let w = wire_of uuid_text sign i c now in
        let fine : accepted (parser_of i later) w ≡ true =
          ground (arith, =ᵇ_refl access_token_algorithm, =ᵇ_refl i.issuer, =ᵇ_refl i.audience) in
        verify-run i raw later w c (reads later ∙ ap (λ b. if b then some w else none) fine)
          (texts c.subject subject) (own_shelter texts c.shelter_id shelter) refl refl
          (issue-signs i c now raw issued)

    -- Once the fifteen minutes of a token that Issue returned are over, it is refused. The parser of
    -- Verify reads, at each instant, the token that Issue signed by the rules `accepted`.
    pub verify-expired :
        (later : ℕ)
        → now + access_token_lifetime ≤ later
        → verify parse_uuid parse i raw later ≡ fail invalid_token
    verify-expired later over =
        let w = wire_of uuid_text sign i c now in
        let late : accepted (parser_of i later) w ≡ false = ground arith in
        verify-none i raw later (reads later ∙ ap (λ b. if b then some w else none) late)
