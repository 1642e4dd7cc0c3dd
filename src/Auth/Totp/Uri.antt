-- ===== src/Auth/Totp/Uri.antt =====
-- apps/api/internal/auth/totp.go, TOTPURI: the URI that an authenticator app scans, with what package
-- net/url does to its path and its query.
pub mod Escapes
pub mod Scanned
mod Tests
use mascotapp.Base.{
  ℕ, ◌+◌, ◌-◌, ◌/◌, ◌%◌, Bool, true, false, not, ◌&&◌, ◌||◌, List, [], ◌∷◌, ◌++◌, Bytes, codes,
  ◌==◌, leb, length, is_empty, if◌then◌else◌,
}
use mascotapp.Base.Results.{Result, pass, fail}
use mascotapp.Base.Sorting.{not_after, sort_by}
use mascotapp.Encoding.Base32.{encode32}
use mascotapp.Auth.Totp.{totp_secret_length, totp_period, totp_digits, decimals}

-- The errors of TOTPURI.
pub data UriError : Type 0 where
  secret_has : ℕ → UriError
  unlabelled : Bytes → Bytes → UriError

-- The letters, the digits and "-_.~".
unfoldable pub is_unreserved : ℕ → Bool
is_unreserved c =
    (leb b'a' c && leb c b'z')
    || (leb b'A' c && leb c b'Z')
    || (leb b'0' c && leb c b'9')
    || c == b'-'
    || c == b'_'
    || c == b'.'
    || c == b'~'

-- What a path may hold as it is: besides those, "$&+,/:;=@".
unfoldable pub is_in_path : ℕ → Bool
unfolding is_unreserved
is_in_path c =
    is_unreserved c
    || c == b'$'
    || c == b'&'
    || c == b'+'
    || c == b','
    || c == b'/'
    || c == b':'
    || c == b';'
    || c == b'='
    || c == b'@'

unfoldable pub hex_digit : ℕ → ℕ
hex_digit n = if leb n 9 then n + b'0' else n - 10 + b'A'

-- One byte as it is escaped, by which bytes stay as they are and whether a space becomes '+'.
unfoldable pub escape_byte : (ℕ → Bool) → Bool → ℕ → Bytes
unfolding hex_digit
escape_byte keeps plus c =
    if plus && c == 32
    then b'+' ∷ []
    else if keeps c
    then c ∷ []
    else b'%' ∷ hex_digit (c / 16) ∷ hex_digit (c % 16) ∷ []

unfoldable pub escape : (ℕ → Bool) → Bool → Bytes → Bytes
unfolding escape_byte
escape keeps plus [] = []
escape keeps plus (c ∷ s) = escape_byte keeps plus c ++ escape keeps plus s

-- url.QueryEscape
abbrev pub query_escape : Bytes → Bytes
query_escape s = escape is_unreserved true s

-- URL.EscapedPath
abbrev pub path_escape : Bytes → Bytes
path_escape s = escape is_in_path false s

-- The loop of Values.Encode over its sorted keys.
unfoldable pub encode_pairs : List (Bytes × Bytes) → Bytes
unfolding escape is_unreserved
encode_pairs [] = []
encode_pairs ((k, v) ∷ []) = query_escape k ++ b'=' ∷ query_escape v
encode_pairs ((k, v) ∷ next ∷ pairs) =
    (query_escape k ++ b'=' ∷ query_escape v) ++ b'&' ∷ encode_pairs (next ∷ pairs)

-- Values.Encode
unfoldable pub encode_values : List (Bytes × Bytes) → Bytes
unfolding encode_pairs
encode_values values = encode_pairs (sort_by (λ a b. not_after a.0 b.0) values)

-- The values that TOTPURI sets.
unfoldable pub query_of : Bytes → Bytes → List (Bytes × Bytes)
unfolding encode32 decimals
query_of secret issuer =
    (codes "secret", encode32 secret)
    ∷ (codes "issuer", issuer)
    ∷ (codes "algorithm", codes "SHA1")
    ∷ (codes "digits", decimals 1 totp_digits)
    ∷ (codes "period", decimals 2 totp_period)
    ∷ []

-- URL.String, for the scheme otpauth and the host totp.
unfoldable pub uri_of : Bytes → Bytes → Bytes
unfolding escape is_in_path
uri_of path query = codes "otpauth://totp" ++ (path_escape path ++ b'?' ∷ query)

-- TOTPURI
unfoldable pub totp_uri : Bytes → Bytes → Bytes → Result UriError Bytes
unfolding query_of encode_values uri_of
totp_uri secret issuer account =
    if not (length secret == totp_secret_length)
    then fail (secret_has (length secret))
    else if is_empty issuer || is_empty account
    then fail (unlabelled issuer account)
    else pass (uri_of (b'/' ∷ issuer ++ b':' ∷ account) (encode_values (query_of secret issuer)))
