-- ===== src/Auth/Token.antt =====
-- apps/api/internal/auth/token.go: the access tokens. The JWT library is a parameter, as are the text
-- of a uuid and its parser; an instant is a number of nanoseconds.
pub mod Verified
use mascotapp.Base.{
  ℕ, ◌+◌, ◌*◌, ◌/◌, Bool, true, false, ◌&&◌, List, [], ◌∷◌, Option, none, some, Bytes, codes, ◌=ᵇ◌,
  length, ltb, leb, is_empty, if◌then◌else◌,
}
use mascotapp.Base.Results.{Result, pass, fail, ◌>>=◌, or_fail}
use mascotapp.Db.Tenant.{nil_uuid}

-- AccessTokenLifetime: 15 * time.Minute
abbrev pub access_token_lifetime : ℕ
access_token_lifetime = 900000000000

-- MinJWTSecretLength
abbrev pub min_jwt_secret_length : ℕ
min_jwt_secret_length = 32

-- accessTokenAlgorithm
abbrev pub access_token_algorithm : Bytes
access_token_algorithm = codes "HS256"

abbrev pub second : ℕ
second = 1000000000

-- Time.Unix, after 1970
abbrev pub unix : ℕ → ℕ
unix t = t / second

pub record AccessClaims : Type 0 where
  pub subject : Bytes
  pub shelter_id : Option Bytes
  pub role : Bytes
  pub amr : List Bytes

-- accessTokenClaims: the wire format.
pub record Wire : Type 0 where
  pub issuer : Bytes
  pub audience : Bytes
  pub subject : Bytes
  pub issued_at : ℕ
  pub expires_at : ℕ
  pub shelter_id : Option Bytes
  pub role : Bytes
  pub amr : List Bytes

pub record TokenIssuer : Type 0 where
  pub secret : Bytes
  pub issuer : Bytes
  pub audience : Bytes

-- The options of jwt.NewParser that Verify sets.
pub record Parser : Type 0 where
  pub valid_methods : List Bytes
  pub issuer : Bytes
  pub audience : Bytes
  pub expiration_required : Bool
  pub issued_at : Bool
  pub now : ℕ

pub data TokenError : Type 0 where
  short_secret empty_issuer empty_audience : TokenError
  nil_subject empty_role empty_amr : TokenError
  signing_failed invalid_token : TokenError

-- NewTokenIssuer
unfoldable pub new_token_issuer : Bytes → Bytes → Bytes → Result TokenError TokenIssuer
new_token_issuer secret issuer audience =
    if ltb (length secret) min_jwt_secret_length
    then fail short_secret
    else if is_empty issuer
    then fail empty_issuer
    else if is_empty audience
    then fail empty_audience
    else pass (record { secret = secret; issuer = issuer; audience = audience })

abbrev pub no_methods : List Bytes → Bool
no_methods [] = true
no_methods (m ∷ ms) = false

-- AccessClaims.validate
unfoldable pub validate : AccessClaims → Result TokenError (Unit {0})
validate c =
    if c.subject =ᵇ nil_uuid
    then fail nil_subject
    else if is_empty c.role
    then fail empty_role
    else if no_methods c.amr
    then fail empty_amr
    else pass tt

-- The parser of Verify, at the instant `now`.
abbrev pub parser_of : TokenIssuer → ℕ → Parser
parser_of i now = record {
  valid_methods = access_token_algorithm ∷ [];
  issuer = i.issuer;
  audience = i.audience;
  expiration_required = true;
  issued_at = true;
  now = now;
}

-- `uuid_text` is uuid.UUID.String. `sign` is jwt.NewWithClaims with the method HS256 and SignedString.
module _ (uuid_text : Bytes → Bytes) (sign : Bytes → Wire → Option Bytes) where
  -- The claims that Issue writes.
  abbrev pub wire_of : TokenIssuer → AccessClaims → ℕ → Wire
  wire_of i claims now = record {
    issuer = i.issuer;
    audience = i.audience;
    subject = uuid_text claims.subject;
    issued_at = unix now;
    expires_at = unix (now + access_token_lifetime);
    shelter_id = elim claims.shelter_id [ none ↦ none | some u ↦ some (uuid_text u) ];
    role = claims.role;
    amr = claims.amr;
  }

  -- TokenIssuer.Issue
  unfoldable pub issue : TokenIssuer → AccessClaims → ℕ → Result TokenError Bytes
  issue i claims now = do
    checked ← validate claims
    or_fail (sign i.secret (wire_of i claims now)) signing_failed

-- The end of Verify: the claims are validated on the way out too.
abbrev pub revalidated : AccessClaims → Result TokenError AccessClaims
revalidated claims = elim (validate claims) [ pass t ↦ pass claims | fail e ↦ fail invalid_token ]

-- `parse` is ParseWithClaims: a parser, the key, and the token.
module _ (parse_uuid : Bytes → Option Bytes) (parse : Parser → Bytes → Bytes → Option Wire) where
  -- The claim shelter_id of a token, which may be absent but not garbage.
  unfoldable pub parse_shelter : Option Bytes → Result TokenError (Option Bytes)
  parse_shelter none = pass none
  parse_shelter (some text) = elim (parse_uuid text) [
    | none ↦ fail invalid_token
    | some u ↦ pass (some u)
  ]

  -- TokenIssuer.Verify: every failure is ErrInvalidToken.
  unfoldable pub verify : TokenIssuer → Bytes → ℕ → Result TokenError AccessClaims
  verify i raw now = do
    wire ← or_fail (parse (parser_of i now) i.secret raw) invalid_token
    subject ← or_fail (parse_uuid wire.subject) invalid_token
    shelter ← parse_shelter wire.shelter_id
    revalidated
        (record { subject = subject; shelter_id = shelter; role = wire.role; amr = wire.amr })
