-- ===== src/Auth/Session/CookieLaws.antt =====
-- What ParseRefreshCookie makes of the cookies that FormatRefreshCookie writes, and of others.
use mascotapp.Base.{
  ◌≡◌, refl, ◌↔◌, inl, inr, List, [], ◌∷◌, Option, Option-cases, some, Bytes, Byte, All, split,
  split-append, split_free, length, arith, ◌≢◌,
}
use mascotapp.Base.Results.{pass}
use mascotapp.Encoding.{raw_url, encode, decode}
use mascotapp.Encoding.RoundTrip.{url, IsPrintable, decode-encode, encode-IsPrintable}
use mascotapp.Auth.Session.Cookie.{
  RefreshCookie, format_refresh_cookie, parse_parts, parse_refresh_cookie, refresh_secret_length,
}

no_dot : (cs : Bytes) → All IsPrintable cs → All (λ c. c ≢ b'.') cs
no_dot [] h = tt
no_dot (c ∷ cs) (h, hs) = (h.1, no_dot cs hs)

encode_no_dot : (bs : Bytes) → All (λ c. c ≢ b'.') (encode raw_url bs)
encode_no_dot bs = no_dot (encode raw_url bs) (encode-IsPrintable raw_url bs url)

module _ (from_bytes : Bytes → Option Bytes) where
  split-format :
      (user secret : Bytes)
      → split b'.' (format_refresh_cookie user secret)
        ≡ encode raw_url user ∷ encode raw_url secret ∷ []
  unfolding format_refresh_cookie
  split-format user secret = rw (
    split-append b'.' (encode raw_url user) (encode raw_url secret) (encode_no_dot user),
    split_free b'.' (encode raw_url secret) (encode_no_dot secret),
  )

  -- A cookie that the server wrote for a user and a secret of 32 bytes is read back as these two,
  -- where the uuid library takes the bytes of the user's id for that id.
  pub parse-format :
      (user secret : Bytes)
      → from_bytes user ≡ some user
      → All Byte user
      → All Byte secret
      → length secret ≡ refresh_secret_length
      → parse_refresh_cookie from_bytes (format_refresh_cookie user secret)
        ≡ pass (record { user_id = user; secret = secret })
  unfolding parse_refresh_cookie
  parse-format user secret known user_bytes secret_bytes len =
      rw
        (
          split-format user secret,
          parse_parts,
          decode-encode raw_url user url user_bytes,
          decode-encode raw_url secret url secret_bytes,
          known,
        )
        (ground arith)

  -- The text is two parts around one dot, the first base64url for bytes that are the user's uuid, and
  -- the second base64url for a secret of 32 bytes.
  abbrev pub Spells : Bytes → RefreshCookie → Type 0
  Spells raw c =
      (user_part : Bytes) × (secret_part : Bytes) × (raw_user : Bytes) × (split b'.' raw
        ≡ user_part ∷ secret_part ∷ [])
      × (decode raw_url user_part ≡ some raw_user)
      × (from_bytes raw_user ≡ some c.user_id)
      × (decode raw_url secret_part ≡ some c.secret)
      × (length c.secret ≡ refresh_secret_length)

  parts_of :
      (parts : List Bytes) (c : RefreshCookie)
      → parse_parts from_bytes parts ≡ pass c
      → (u : Bytes) × (v : Bytes) × (parts ≡ u ∷ v ∷ [])
  unfolding parse_parts
  parts_of [] c h = cc
  parts_of (u ∷ []) c h = cc
  parts_of (u ∷ v ∷ []) c h = (u, v, refl)
  parts_of (u ∷ v ∷ w ∷ rest) c h = cc

  two_parts :
      (u v : Bytes) (c : RefreshCookie)
      → parse_parts from_bytes (u ∷ v ∷ []) ≡ pass c
      → (raw_user : Bytes) × (decode raw_url u ≡ some raw_user)
        × (from_bytes raw_user ≡ some c.user_id)
        × (decode raw_url v ≡ some c.secret)
        × (length c.secret ≡ refresh_secret_length)
  unfolding parse_parts
  two_parts u v c h = elim (Option-cases (decode raw_url u)) [
    | inl e ↦ absurd (ground arith)
    | inr (raw_user, e) ↦ (raw_user, e, ground arith, ground arith, ground arith)
  ]

  -- A cookie is accepted, as a user and a secret, exactly if it spells them.
  pub parse-pass_iff :
      (raw : Bytes) (c : RefreshCookie)
      → (parse_refresh_cookie from_bytes raw ≡ pass c) ↔ Spells raw c
  unfolding parse_refresh_cookie
  parse-pass_iff raw c = (
    λ h.
        let (u, v, e) = parts_of (split b'.' raw) c h in
        let (raw_user, du, fb, dv, len) = two_parts u v c (rw e at h) in
        (u, v, raw_user, e, du, fb, dv, len),
    λ (u, v, raw_user, e, du, fb, dv, len). rw (e, parse_parts, du) (ground arith),
  )
