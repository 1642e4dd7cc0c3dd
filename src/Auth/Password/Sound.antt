-- ===== src/Auth/Password/Sound.antt =====
-- What a hash that VerifyPassword of auth/password.go accepts must be.
use mascotapp.Base.{
  ℕ, ◌≤◌, ◌≡◌, refl, subst, Bool, List, [], ◌∷◌, Bytes, length, split, arith, Option-cases, inl,
  inr,
}
use mascotapp.Base.Results.{pass, Result-cases}
use mascotapp.Encoding.{raw_std, decode}
use mascotapp.Auth.Password.{
  Stored, scan_version, scan_params, component_length, stored, parse_fields, parse, verify_password,
}

-- What parse requires of a row.
abbrev pub IsSound : Stored → Type 0
IsSound row =
    (1 ≤ length row.salt)
    × (length row.salt ≤ 1024)
    × (1 ≤ length row.digest)
    × (length row.digest ≤ 1024)
    × (1 ≤ row.params.memory)
    × (1 ≤ row.params.time)
    × (1 ≤ row.params.parallelism)
    × (row.params.salt_length ≡ length row.salt)
    × (row.params.key_length ≡ length row.digest)

stored-IsSound :
    (cost : ℕ × ℕ × ℕ) (salt digest : Bytes) (row : Stored)
    → stored cost salt digest ≡ pass row
    → IsSound row
unfolding stored component_length
stored-IsSound cost salt digest row h =
    let made : Stored = record {
      params = record {
        memory = cost.0;
        time = cost.1;
        parallelism = cost.2;
        salt_length = length salt;
        key_length = length digest;
      };
      salt = salt;
      digest = digest;
    } in
    let same : made ≡ row = ground arith in
    subst IsSound same (
      ground arith,
      ground arith,
      ground arith,
      ground arith,
      ground arith,
      ground arith,
      ground arith,
      refl,
      refl,
    )

six_fields :
    (f0 f1 f2 f3 f4 f5 : Bytes) (row : Stored)
    → parse_fields (f0 ∷ f1 ∷ f2 ∷ f3 ∷ f4 ∷ f5 ∷ []) ≡ pass row
    → IsSound row
unfolding parse_fields
six_fields f0 f1 f2 f3 f4 f5 row h = elim (Option-cases (scan_version f2)) [
  | inl bad ↦ ground arith
  | inr (version, v) ↦ elim (Option-cases (scan_params f3)) [
    | inl bad ↦ ground arith
    | inr (cost, c) ↦ elim (Option-cases (decode raw_std f4)) [
      | inl bad ↦ ground arith
      | inr (salt, s) ↦ elim (Option-cases (decode raw_std f5)) [
        | inl bad ↦ ground arith
        | inr (digest, d) ↦ stored-IsSound cost salt digest row (ground arith)
      ]
    ]
  ]
]

parse_fields-IsSound :
    (fields : List Bytes) (row : Stored) → parse_fields fields ≡ pass row → IsSound row
unfolding parse_fields
parse_fields-IsSound (a ∷ b ∷ c ∷ d ∷ e ∷ f ∷ []) row h = six_fields a b c d e f row h
parse_fields-IsSound fields row h = ground arith

-- VerifyPassword compares only with a row that parse can read: a salt and a digest of one to 1024
-- bytes, costs that are not zero, and lengths that are those of the salt and the digest. For any other
-- text it returns an error, not a failed match.
pub verify_password-IsSound :
    (id_key : Bytes → Bytes → ℕ → ℕ → ℕ → ℕ → Bytes) (encoded password : Bytes) (b : Bool)
    → verify_password id_key encoded password ≡ pass b
    → (row : Stored) × (parse encoded ≡ pass row) × IsSound row
unfolding verify_password parse
verify_password-IsSound id_key encoded password b h = elim (Result-cases (parse encoded)) [
  | inr (e, bad) ↦ ground arith
  | inl (row, good) ↦ (row, good, parse_fields-IsSound (split b'$' encoded) row good)
]
