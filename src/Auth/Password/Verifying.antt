-- ===== src/Auth/Password/Verifying.antt =====
-- What VerifyPassword of auth/password.go makes of a hash that HashPasswordWithParams wrote.
use mascotapp.Base.{
  ℕ, zero, suc, ◌+◌, ◌/◌, ◌%◌, ◌^◌, ◌≤◌, ◌<◌, ◌≡◌, ◌≢◌, ◌∙◌, refl, sym, ap, subst, true, false, [],
  ◌∷◌, ◌++◌, append-nil, some, Bytes, Byte, codes, ◌=ᵇ◌, =ᵇ_refl, All, All-append, length, ltb,
  split, split-append, split_free, strip_prefix, arith, Bool-cases, inl, inr,
}
use mascotapp.Base.Results.{pass}
use mascotapp.Db.State.{State, ok, pure}
use mascotapp.Db.Hoare.{bind-ok}
use mascotapp.Encoding.{raw_std, encode}
use mascotapp.Encoding.RoundTrip.{std, IsPrintable, decode-encode, encode-IsPrintable}
use mascotapp.Auth.Session.Entropy.{fit-Byte, length-fit, draw, draw-ok}
use mascotapp.Auth.Password.Scanning.{scan_uint-shown}
use mascotapp.Auth.Password.{
  Params, shown, decimal, scan_uint, skip_space, read_run, number_below, scan_signed, scan_version,
  scan_params, component_length, stored, parse_fields, parse, phc_text, has_zero,
  hash_password_with_params, verify_password,
}

abbrev NoDollar : Bytes → Type 0
NoDollar = All (λ c. c ≢ b'$')

shown-NoDollar : (k n : ℕ) → NoDollar (shown k n)
unfolding shown
shown-NoDollar zero n = tt
shown-NoDollar (suc k) n = elim (Bool-cases (ltb n 10)) [
  | inl small ↦ rw small ((λ e. omega (arith, e)), tt)
  | inr large ↦ rw large (
      All-append (λ c. c ≢ b'$') (shown k (n / 10)) ((n % 10 + b'0') ∷ [])
        (shown-NoDollar k (n / 10)) ((λ e. omega (arith, e)), tt))
]

encode-NoDollar : (cs : Bytes) → All IsPrintable cs → NoDollar cs
encode-NoDollar [] h = tt
encode-NoDollar (c ∷ cs) (h, hs) = (h.2, encode-NoDollar cs hs)

-- The costs fit their types, and the lengths what parse allows.
abbrev pub InRange : Params → Type 0
InRange p =
    (p.memory < 2 ^ 32)
    × (p.time < 2 ^ 32)
    × (p.parallelism < 2 ^ 8)
    × (p.salt_length ≤ 1024)
    × (p.key_length ≤ 1024)

abbrev costs : Params → Bytes
costs p =
    codes "m="
    ++ (decimal p.memory
        ++ (codes ",t=" ++ (decimal p.time ++ (codes ",p=" ++ decimal p.parallelism))))

costs-NoDollar : (p : Params) → NoDollar (costs p)
costs-NoDollar p =
    let join = All-append (λ c. c ≢ b'$') in
    join (codes "m=") _ (ground arith) (
      join (decimal p.memory) _ (shown-NoDollar 20 p.memory) (
        join (codes ",t=") _ (ground arith) (
          join (decimal p.time) _ (shown-NoDollar 20 p.time)
            (join (codes ",p=") _ (ground arith) (shown-NoDollar 20 p.parallelism)))))

scan_params-costs :
    (p : Params) → InRange p → scan_params (costs p) ≡ some (p.memory, p.time, p.parallelism)
unfolding scan_params strip_prefix
scan_params-costs p (m, t, l, _, _) =
    let last : scan_uint 8 (decimal p.parallelism) ≡ some (p.parallelism, []) =
      subst (λ x. scan_uint 8 x ≡ some (p.parallelism, [])) (append-nil (decimal p.parallelism))
        (scan_uint-shown 8 p.parallelism [] (omega (arith, l)) l tt) in
    rw
      (
        scan_uint-shown 32 p.memory
            (codes ",t=" ++ (decimal p.time ++ (codes ",p=" ++ decimal p.parallelism)))
            (omega (arith, m)) m refl,
        scan_uint-shown 32 p.time (codes ",p=" ++ decimal p.parallelism) (omega (arith, t)) t refl,
        last,
      )
      refl

scan_version-19 : scan_version (codes "v=" ++ decimal 19) ≡ some (false, 19)
unfolding scan_version scan_signed strip_prefix skip_space number_below read_run shown
scan_version-19 = refl

split-phc_text :
    (p : Params) (salt key : Bytes)
    → split b'$' (phc_text p salt key)
      ≡ []
        ∷ codes "argon2id"
        ∷ (codes "v=" ++ decimal 19)
        ∷ costs p
        ∷ encode raw_std salt
        ∷ encode raw_std key
        ∷ []
unfolding phc_text
split-phc_text p salt key =
    let tail = encode raw_std salt ++ b'$' ∷ encode raw_std key in
    let free =
      λ (bs : Bytes). encode-NoDollar (encode raw_std bs) (encode-IsPrintable raw_std bs std) in
    let ends : split b'$' tail ≡ encode raw_std salt ∷ encode raw_std key ∷ [] =
      split-append b'$' (encode raw_std salt) (encode raw_std key) (free salt)
      ∙ ap (λ r. encode raw_std salt ∷ r) (split_free b'$' (encode raw_std key) (free key)) in
    let version = codes "v=" ++ decimal 19 in
    split-append b'$' [] _ tt
    ∙ ap (λ r. [] ∷ r)
        (split-append b'$' (codes "argon2id") _ (ground arith)
          ∙ ap (λ r. codes "argon2id" ∷ r)
              (split-append b'$' version _ (
                  All-append (λ c. c ≢ b'$') (codes "v=") (decimal 19) (ground arith)
                    (shown-NoDollar 20 19))
                ∙ ap (λ r. version ∷ r)
                    (split-append b'$' (costs p) tail (costs-NoDollar p)
                      ∙ ap (λ r. costs p ∷ r) ends)))

-- What parse makes of the text of a hash.
parse-phc_text :
    (p : Params) (salt key : Bytes)
    → InRange p
    → has_zero p ≡ false
    → All Byte salt
    → All Byte key
    → length salt ≡ p.salt_length
    → length key ≡ p.key_length
    → parse (phc_text p salt key) ≡ pass (record { params = p; salt = salt; digest = key })
unfolding parse parse_fields stored component_length ◌=ᵇ◌
parse-phc_text p salt key fits costly salt_bytes key_bytes salt_size key_size =
    rw
      (
        split-phc_text p salt key,
        scan_version-19,
        scan_params-costs p fits,
        decode-encode raw_std salt std salt_bytes,
        decode-encode raw_std key std key_bytes,
        salt_size,
        key_size,
      )
      (ground (arith, costly, fits))

module _ (id_key : Bytes → Bytes → ℕ → ℕ → ℕ → ℕ → Bytes)
    (sized : (password salt : Bytes) (t m l k : ℕ) → length (id_key password salt t m l k) ≡ k)
    (bytes : (password salt : Bytes) (t m l k : ℕ) → All Byte (id_key password salt t m l k)) where
  -- The row that a hash is, for the salt that was drawn.
  hashed :
      (password encoded : Bytes) (p : Params) (s : State)
      → InRange p
      → (hash_password_with_params id_key password p s).0 ≡ ok encoded
      → (salt : Bytes) × (parse encoded
          ≡ pass (record {
            params = p;
            salt = salt;
            digest = id_key password salt p.time p.memory p.parallelism p.key_length;
          }))
  unfolding hash_password_with_params
  hashed password encoded p s fits h = elim (Bool-cases (has_zero p)) [
    | inl zero_ ↦ ground arith
    | inr costly ↦
        let key = λ (x : Bytes). id_key password x p.time p.memory p.parallelism p.key_length in
        let (salt, drawn, on) =
          bind-ok (draw p.salt_length) (λ x. pure (phc_text p x (key x))) s encoded
            (ground (arith, h)) in
        let (xs, is) = draw-ok p.salt_length s salt drawn in
        let whole : encoded ≡ phc_text p salt (key salt) = ground (arith, ap (λ r. r.0) on, h) in
        (
          salt,
          ap parse whole
              ∙ parse-phc_text p salt (key salt) fits costly
                  (subst (All Byte) (sym is) (fit-Byte p.salt_length xs)) (bytes _ _ _ _ _ _)
                  (ap length is ∙ length-fit p.salt_length xs) (sized _ _ _ _ _ _),
        )
  ]

  -- A hash that HashPasswordWithParams wrote, with costs that fit their types and lengths of at most
  -- 1024, verifies with its password. With another it verifies exactly if Argon2id derives the same key
  -- from it, under the salt and the costs of the hash. Argon2id returns as many bytes as it is asked for.
  pub verify_password-hash :
      (password encoded other : Bytes) (p : Params) (s : State)
      → InRange p
      → (hash_password_with_params id_key password p s).0 ≡ ok encoded
      → (verify_password id_key encoded password ≡ pass true)
        × ((salt : Bytes) × (verify_password id_key encoded other
              ≡ pass (
                  id_key other salt p.time p.memory p.parallelism p.key_length
                  =ᵇ id_key password salt p.time p.memory p.parallelism p.key_length)))
  unfolding verify_password
  verify_password-hash password encoded other p s fits h =
      let (salt, read) = hashed password encoded p s fits h in
      (
        rw (read, =ᵇ_refl (id_key password salt p.time p.memory p.parallelism p.key_length)) refl,
        (salt, rw read refl),
      )
