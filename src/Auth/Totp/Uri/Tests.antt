-- ===== src/Auth/Totp/Uri/Tests.antt =====
-- The URI of an account with a space and a mark in its name.
use mascotapp.Base.{◌≡◌, refl, ◌++◌, some, Bytes, codes, replicate, arith}
use mascotapp.Base.Results.{pass}
use mascotapp.Base.Sorting.{sort_by, insert_by, not_after}
use mascotapp.Encoding.Base32.{encode32, encode_digit32}
use mascotapp.Auth.Totp.{decimals}
use mascotapp.Auth.Totp.Uri.{
  totp_uri, uri_of, encode_values, encode_pairs, query_of, escape, escape_byte, hex_digit,
  is_in_path, is_unreserved,
}
use mascotapp.Auth.Totp.Uri.Scanned.{scanned, parameters, totp_uri-scanned}

abbrev zeros : Bytes
zeros = replicate 20 0

text_of :
    totp_uri zeros (codes "My?App") (codes "a b")
    ≡ pass (
        codes "otpauth://totp/My%3FApp:a%20b?algorithm=SHA1&digits=6&issuer=My%3FApp&period=30"
        ++ codes "&secret=AAAAAAAAAAAAAAAAAAAAAAAAAAAAAAAA")
unfolding totp_uri uri_of encode_values encode_pairs query_of escape escape_byte hex_digit
    is_in_path is_unreserved encode32 encode_digit32 decimals sort_by insert_by not_after
text_of = refl

totp_uri-scanned_example :
    (uri : Bytes) × (totp_uri zeros (codes "My?App") (codes "a b") ≡ pass uri)
    × (scanned uri ≡ some (codes "My?App:a b", parameters zeros (codes "My?App")))
totp_uri-scanned_example =
    totp_uri-scanned zeros (codes "My?App") (codes "a b") refl (λ e. ground (arith, e))
      (λ e. ground (arith, e)) (omega arith) (omega arith) (omega arith)
