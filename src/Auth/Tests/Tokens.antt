-- ===== src/Auth/Tests/Tokens.antt =====
-- Runs of access tokens, with toy parameters: a uuid is its own text, and the library signs one token.
use mascotapp.Base.{
  ℕ, ◌≡◌, ◌≢◌, refl, [], ◌∷◌, Option, none, some, Bytes, ◌=ᵇ◌, replicate, arith, codes,
  if◌then◌else◌,
}
use mascotapp.Base.Results.{pass, fail}
use mascotapp.Db.Tenant.{nil_uuid}
use mascotapp.Db.Samples.{uuid}
use mascotapp.Auth.Token.{
  AccessClaims, Wire, TokenIssuer, Parser, invalid_token, parser_of, wire_of, validate, issue,
  parse_shelter, verify,
}
use mascotapp.Auth.Token.Verified.{
  accepted, SameShelter, verify-issue, verify-expired, verify-claims,
}

abbrev same : Bytes → Bytes
same b = b

abbrev sample_claims : AccessClaims
sample_claims = record {
  subject = uuid 1;
  shelter_id = some (uuid 2);
  role = codes "owner";
  amr = codes "pwd" ∷ [];
}

abbrev token_issuer : TokenIssuer
token_issuer = record {
  secret = replicate 32 7;
  issuer = codes "mascotapp";
  audience = codes "api";
}

abbrev signed_text : Bytes
signed_text = codes "token"

abbrev toy_sign : Bytes → Wire → Option Bytes
toy_sign key w = some signed_text

abbrev issued_at : ℕ
issued_at = 1000500000000

abbrev signed_wire : Wire
signed_wire = wire_of same toy_sign token_issuer sample_claims issued_at

abbrev toy_parse : Parser → Bytes → Bytes → Option Wire
toy_parse p key raw = if accepted p signed_wire then some signed_wire else none

issues : issue same toy_sign token_issuer sample_claims issued_at ≡ pass signed_text
unfolding issue validate ◌=ᵇ◌
issues = refl

verify-issue_example :
    verify some toy_parse token_issuer signed_text 1500000000000 ≡ pass sample_claims
verify-issue_example =
    verify-issue same some toy_sign toy_parse token_issuer sample_claims issued_at signed_text
      issues (λ t. refl) (λ u h. refl) refl refl 1500000000000 (omega arith) (omega arith)

verify-expired_example :
    verify some toy_parse token_issuer signed_text 1900500000000 ≡ fail invalid_token
verify-expired_example =
    verify-expired same some toy_sign toy_parse token_issuer sample_claims issued_at signed_text
      issues (λ t. refl) 1900500000000 (omega arith)

verifies : verify some toy_parse token_issuer signed_text 1500000000000 ≡ pass sample_claims
unfolding verify parse_shelter validate ◌=ᵇ◌
verifies = refl

verify-claims_example :
    (uuid 1 ≢ nil_uuid)
    × (codes "owner" ≢ [])
    × (codes "pwd" ∷ [] ≢ [])
    × ((w : Wire) × (toy_parse
            (parser_of token_issuer 1500000000000)
            token_issuer.secret
            signed_text
          ≡ some w)
        × (some w.subject ≡ some (uuid 1))
        × SameShelter same some toy_sign toy_parse w.shelter_id (some (uuid 2))
        × (codes "owner" ≡ w.role)
        × (codes "pwd" ∷ [] ≡ w.amr))
verify-claims_example =
    verify-claims same some toy_sign toy_parse token_issuer signed_text 1500000000000 sample_claims
      verifies
