-- ===== src/Auth/Totp/Uri/Scanned.antt =====
-- What an authenticator app reads in the URI of TOTPURI: the reader is written from RFC 3986 and the form
-- encoding, and shares nothing with the code that writes the URI.
use mascotapp.Base.{
  ℕ, ◌≡◌, ◌≢◌, ◌⊎◌, refl, ap, ◌∙◌, inl, inr, true, false, List, [], ◌∷◌, ◌++◌, map, Option, none,
  some, Bytes, Byte, codes, ==_iff, ltb, all, length, All, All-append, split, split-join,
  split_free, cut, strip_prefix, arith,
}
use mascotapp.Base.Results.{pass}
use mascotapp.Base.Sorting.{not_after, sort_by, insert_by}
use mascotapp.Encoding.Base32.{encode32, IsBase32, encode32-IsBase32}
use mascotapp.Auth.Totp.{decimals}
use mascotapp.Auth.Totp.Uri.{
  is_unreserved, is_in_path, hex_digit, escape, query_escape, path_escape, encode_pairs,
  encode_values, query_of, uri_of, totp_uri,
}
use mascotapp.Auth.Totp.Uri.Escapes.{unescape_from, unescape-escape, escape-All}

-- A name and its value, if the text has both.
abbrev named_value : Bytes → Option (Bytes × Bytes) → Bytes × Bytes
named_value text none = (unescape_from true [] text, [])
named_value text (some (k, v)) = (unescape_from true [] k, unescape_from true [] v)

unfoldable pub read_pair : Bytes → Bytes × Bytes
unfolding cut unescape_from
read_pair text = named_value text (cut b'=' text)

abbrev labelled : Option (Bytes × Bytes) → Option (Bytes × List (Bytes × Bytes))
labelled none = none
labelled (some (label, query)) =
    some (unescape_from false [] label, map read_pair (split b'&' query))

-- The label and the parameters of the URI.
unfoldable pub scanned : Bytes → Option (Bytes × List (Bytes × Bytes))
unfolding read_pair
scanned uri = elim (strip_prefix (codes "otpauth://totp/") uri) [
  | none ↦ none
  | some rest ↦ labelled (cut b'?' rest)
]

cut-append :
    (sep : ℕ) (xs ys : Bytes) → All (λ c. c ≢ sep) xs → cut sep (xs ++ sep ∷ ys) ≡ some (xs, ys)
unfolding cut
cut-append sep [] ys h = ground arith
cut-append sep (x ∷ xs) ys (p, h) = ground (arith, cut-append sep xs ys h, p)

-- What a query is split at.
abbrev InPair : ℕ → Type 0
InPair c = (c ≢ b'&') × (c ≢ b'=')

unreserved_as_it_is : (c : ℕ) → is_unreserved c ≡ true → (c ≢ b'%') × ((c ≢ b'+') ⊎ (true ≡ false))
unfolding is_unreserved
unreserved_as_it_is c k = ((λ e. ground (arith, k, e)), inl (λ e. ground (arith, k, e)))

query_escape-InPair : (s : Bytes) → All Byte s → All InPair (query_escape s)
unfolding is_unreserved hex_digit
query_escape-InPair s h =
    escape-All is_unreserved true (λ c k. unreserved_as_it_is c k) InPair
      ((λ e. omega arith), (λ e. omega arith)) ((λ e. omega arith), (λ e. omega arith))
      (λ n l. ((λ e. ground (arith, e)), (λ e. ground (arith, e))))
      (λ c k. ((λ e. ground (arith, e)), (λ e. ground (arith, e)))) s h

unescape-query_escape : (s : Bytes) → All Byte s → unescape_from true [] (query_escape s) ≡ s
unescape-query_escape s h = unescape-escape is_unreserved true (λ c k. unreserved_as_it_is c k) s h

path_as_it_is : (c : ℕ) → is_in_path c ≡ true → (c ≢ b'%') × ((c ≢ b'+') ⊎ (false ≡ false))
unfolding is_in_path is_unreserved
path_as_it_is c k = ((λ e. ground (arith, k, e)), inr refl)

path_escape-free : (s : Bytes) → All Byte s → All (λ c. c ≢ b'?') (path_escape s)
unfolding is_in_path is_unreserved hex_digit
path_escape-free s h =
    escape-All is_in_path false path_as_it_is (λ c. c ≢ b'?') (λ e. omega arith) (λ e. omega arith)
      (λ n l e. ground (arith, e)) (λ c k e. ground (arith, e)) s h

All-imp : {P Q : ℕ → Type 0} → ((c : ℕ) → P c → Q c) → (s : Bytes) → All P s → All Q s
All-imp f [] h = tt
All-imp f (c ∷ s) (p, h) = (f c p, All-imp f s h)

abbrev pair_text : Bytes × Bytes → Bytes
pair_text (k, v) = query_escape k ++ b'=' ∷ query_escape v

abbrev AreBytes : Bytes × Bytes → Type 0
AreBytes (k, v) = All Byte k × All Byte v

pair_text-free : (p : Bytes × Bytes) → AreBytes p → All (λ c. c ≢ b'&') (pair_text p)
pair_text-free (k, v) (hk, hv) =
    All-append (λ c. c ≢ b'&') (query_escape k) (b'=' ∷ query_escape v)
      (All-imp (λ c p. p.0) (query_escape k) (query_escape-InPair k hk))
      ((λ e. omega arith), All-imp (λ c p. p.0) (query_escape v) (query_escape-InPair v hv))

read_pair-pair_text : (p : Bytes × Bytes) → AreBytes p → read_pair (pair_text p) ≡ p
unfolding read_pair
read_pair-pair_text (k, v) (hk, hv) =
    ap (named_value (pair_text (k, v))) (
      cut-append b'=' (query_escape k) (query_escape v)
        (All-imp (λ c p. p.1) (query_escape k) (query_escape-InPair k hk)))
    ∙ ap (λ x. (x, unescape_from true [] (query_escape v))) (unescape-query_escape k hk)
    ∙ ap (λ x. (k, x)) (unescape-query_escape v hv)

read_pairs :
    (p : Bytes × Bytes) (ps : List (Bytes × Bytes))
    → All AreBytes (p ∷ ps)
    → map read_pair (split b'&' (encode_pairs (p ∷ ps))) ≡ p ∷ ps
unfolding encode_pairs
read_pairs p [] (h, _) =
    rw (split_free b'&' (pair_text p) (pair_text-free p h), read_pair-pair_text p h) refl
read_pairs p (next ∷ ps) (h, hs) =
    rw
      (
        split-join b'&' (pair_text p) (encode_pairs (next ∷ ps)),
        split_free b'&' (pair_text p) (pair_text-free p h),
        read_pair-pair_text p h,
        read_pairs next ps hs,
      )
      refl

-- The parameters in the order in which the URI has them.
abbrev pub parameters : Bytes → Bytes → List (Bytes × Bytes)
parameters secret issuer =
    (codes "algorithm", codes "SHA1")
    ∷ (codes "digits", codes "6")
    ∷ (codes "issuer", issuer)
    ∷ (codes "period", codes "30")
    ∷ (codes "secret", encode32 secret)
    ∷ []

encode_values-query_of :
    (secret issuer : Bytes)
    → encode_values (query_of secret issuer) ≡ encode_pairs (parameters secret issuer)
unfolding encode_values query_of sort_by insert_by not_after decimals
encode_values-query_of secret issuer = refl

Base32-Byte : (c : ℕ) → IsBase32 c → Byte c
Base32-Byte c h = elim h [ inl x ↦ omega (arith, x) | inr x ↦ omega (arith, x) ]

all_bytes : (s : Bytes) → all (λ c. ltb c 256) s ≡ true → All Byte s
all_bytes [] h = tt
all_bytes (c ∷ s) h = (ground (arith, h), all_bytes s (ground (arith, h)))

parameters-AreBytes :
    (secret issuer : Bytes)
    → All Byte secret
    → All Byte issuer
    → All AreBytes (parameters secret issuer)
parameters-AreBytes secret issuer hs hi = (
  (all_bytes (codes "algorithm") refl, all_bytes (codes "SHA1") refl),
  (
    (all_bytes (codes "digits") refl, all_bytes (codes "6") refl),
    (
      (all_bytes (codes "issuer") refl, hi),
      (
        (all_bytes (codes "period") refl, all_bytes (codes "30") refl),
        (
          (
            all_bytes (codes "secret") refl,
            All-imp Base32-Byte (encode32 secret) (encode32-IsBase32 secret hs),
          ),
          tt,
        ),
      ),
    ),
  ),
)

-- For every secret of 20 bytes and every issuer and account that are not empty, TOTPURI returns a URI,
-- and reading it gives back the issuer and the account as its label, the five parameters, and
-- among them the issuer and the secret in base32, whatever bytes the issuer and the account have.
pub totp_uri-scanned :
    (secret issuer account : Bytes)
    → length secret ≡ 20
    → issuer ≢ []
    → account ≢ []
    → All Byte secret
    → All Byte issuer
    → All Byte account
    → (uri : Bytes) × (totp_uri secret issuer account ≡ pass uri)
      × (scanned uri ≡ some (issuer ++ b':' ∷ account, parameters secret issuer))
unfolding totp_uri scanned strip_prefix uri_of escape is_in_path is_unreserved
totp_uri-scanned secret [] account size named known hs hi ha = absurd (named refl)
totp_uri-scanned secret (x ∷ xs) [] size named known hs hi ha = absurd (known refl)
totp_uri-scanned secret (x ∷ xs) (y ∷ ys) size named known hs hi ha =
    let label = (x ∷ xs) ++ b':' ∷ y ∷ ys in
    let bytes = All-append Byte (x ∷ xs) (b':' ∷ y ∷ ys) hi (omega arith, ha) in
    (
      uri_of (b'/' ∷ label) (encode_values (query_of secret (x ∷ xs))),
      rw ((==_iff (length secret) 20).1 size) refl,
      ap labelled (
            cut-append b'?' (path_escape label) (encode_values (query_of secret (x ∷ xs)))
              (path_escape-free label bytes))
          ∙ ap
              (λ l. some (l, map read_pair (split b'&' (encode_values (query_of secret (x ∷ xs))))))
              (unescape-escape is_in_path false path_as_it_is label bytes)
          ∙ ap (λ q. some (label, map read_pair (split b'&' q)))
              (encode_values-query_of secret (x ∷ xs))
          ∙ ap (λ ps. some (label, ps))
              (read_pairs _ _ (parameters-AreBytes secret (x ∷ xs) hs hi)),
    )
