-- ===== src/Auth/Password.antt =====
-- apps/api/internal/auth/password.go: password hashes in the PHC format. Argon2id is a parameter.
pub mod Scanning
pub mod Verifying
pub mod Sound
mod Tests
use mascotapp.Base.{
  ℕ, zero, suc, ◌+◌, ◌-◌, ◌*◌, ◌/◌, ◌%◌, ◌^◌, Bool, true, false, not, ◌&&◌, ◌||◌, List, [], ◌∷◌,
  ◌++◌, Option, none, some, Bytes, codes, ◌=ᵇ◌, ◌==◌, ltb, leb, is_empty, length, split, is_space,
  strip_prefix, if◌then◌else◌,
}
use mascotapp.Base.Results.{Result, pass, fail, or_fail, ◌>>=◌}
use mascotapp.Errors.{zero_cost}
use mascotapp.Db.State.{M, pure, throw, continue}
use mascotapp.Db.State as State
use mascotapp.Encoding.{raw_std, encode, decode}
use mascotapp.Auth.Session.Entropy.{draw}

-- Params
pub record Params : Type 0 where
  pub memory : ℕ
  pub time : ℕ
  pub parallelism : ℕ
  pub salt_length : ℕ
  pub key_length : ℕ

-- DefaultParams
abbrev pub default_params : Params
default_params = record {
  memory = 65536;
  time = 3;
  parallelism = 1;
  salt_length = 16;
  key_length = 32;
}

-- The refusals of parse, all of which wrap ErrInvalidHash.
pub data HashError : Type 0 where
  wrong_fields wrong_algorithm unreadable_version unsupported_version unreadable_params : HashError
  undecodable_salt undecodable_hash salt_size hash_size zero_param : HashError

-- argon2idVersion
abbrev pub argon2id_version : ℕ
argon2id_version = 19

-- %d of fmt.Sprintf, for a number of at most n digits.
unfoldable pub shown : ℕ → ℕ → Bytes
shown zero n = []
shown (suc k) n =
    let before = shown k (n / 10) in
    if ltb n 10 then (n + b'0') ∷ [] else before ++ (n % 10 + b'0') ∷ []

-- A number below 2 ^ 64, which has at most twenty digits.
abbrev pub decimal : ℕ → Bytes
decimal n = shown 20 n

-- fmt's SkipSpace in Sscanf, on ASCII texts: a line end is an error.
unfoldable pub skip_space : Bytes → Option Bytes
unfolding is_space
skip_space [] = some []
skip_space (c ∷ cs) =
    let rest = skip_space cs in if c == 10 then none else if is_space c then rest else some (c ∷ cs)

abbrev pub is_digit : ℕ → Bool
is_digit c = leb b'0' c && leb c b'9'

-- The digits at the front of a text, after `n` was read, and what follows them.
unfoldable pub read_run : ℕ → Bytes → ℕ × Bytes
read_run n [] = (n, [])
read_run n (c ∷ cs) =
    let rest = read_run (n * 10 + (c - b'0')) cs in if is_digit c then rest else (n, c ∷ cs)

-- A run of digits, of which there is one at least, for a number below a bound.
unfoldable pub number_below : ℕ → Bytes → Option (ℕ × Bytes)
number_below bound [] = none
number_below bound (c ∷ cs) =
    let r = read_run 0 (c ∷ cs) in if is_digit c && ltb r.0 bound then some r else none

abbrev bind {ℓ κ} : {A : Type ℓ} {B : Type κ} → Option A → (A → Option B) → Option B
bind none k = none
bind (some a) k = k a

-- %d of Sscanf into an unsigned integer of so many bits.
unfoldable pub scan_uint : ℕ → Bytes → Option (ℕ × Bytes)
unfolding skip_space
scan_uint bits text = bind (skip_space text) (number_below (2 ^ bits))

abbrev signed : Bool → Option (ℕ × Bytes) → Option (Bool × ℕ)
signed negative none = none
signed negative (some r) = some (negative, r.0)

-- The sign and the number of %d into an int.
unfoldable pub scan_signed : Bytes → Option (Bool × ℕ)
scan_signed [] = none
scan_signed (c ∷ cs) =
    if c == b'-'
    then signed true (number_below (2 ^ 63 + 1) cs)
    else if c == b'+'
    then signed false (number_below (2 ^ 63) cs)
    else signed false (number_below (2 ^ 63) (c ∷ cs))

-- Sscanf(field, "v=%d"): what follows the number is not looked at.
unfoldable pub scan_version : Bytes → Option (Bool × ℕ)
scan_version field =
    bind (strip_prefix (codes "v=") field) (λ text. bind (skip_space text) scan_signed)

-- Sscanf(field, "m=%d,t=%d,p=%d")
unfoldable pub scan_params : Bytes → Option (ℕ × ℕ × ℕ)
scan_params field = bind (strip_prefix (codes "m=") field) (λ a. bind (scan_uint 32 a) (λ m.
    bind (strip_prefix (codes ",t=") m.1) (λ b. bind (scan_uint 32 b) (λ t.
      bind (strip_prefix (codes ",p=") t.1)
        (λ c. bind (scan_uint 8 c) (λ p. some (m.0, t.0, p.0)))))))

-- componentLength, as a test.
unfoldable pub component_length : ℕ → Bool
component_length n = leb 1 n && leb n 1024

-- The row that parse reads: the costs, the salt and the digest.
pub record Stored : Type 0 where
  pub params : Params
  pub salt : Bytes
  pub digest : Bytes

-- The end of parse, once the five fields were read.
unfoldable pub stored : ℕ × ℕ × ℕ → Bytes → Bytes → Result HashError Stored
stored cost salt digest =
    if not (component_length (length salt))
    then fail salt_size
    else if not (component_length (length digest))
    then fail hash_size
    else if cost.0 == 0 || cost.1 == 0 || cost.2 == 0
    then fail zero_param
    else pass (record {
      params = record {
        memory = cost.0;
        time = cost.1;
        parallelism = cost.2;
        salt_length = length salt;
        key_length = length digest;
      };
      salt = salt;
      digest = digest;
    })

abbrev is_version : Bool × ℕ → Bool
is_version v = (v.1 == argon2id_version) && not v.0

-- The fields of parse.
unfoldable pub parse_fields : List Bytes → Result HashError Stored
parse_fields (f0 ∷ f1 ∷ f2 ∷ f3 ∷ f4 ∷ f5 ∷ []) =
    if not (is_empty f0)
    then fail wrong_fields
    else if not (f1 =ᵇ codes "argon2id")
    then fail wrong_algorithm
    else (do
      version ← or_fail (scan_version f2) unreadable_version
      if not (is_version version) then fail unsupported_version else (do
        cost ← or_fail (scan_params f3) unreadable_params
        salt ← or_fail (decode raw_std f4) undecodable_salt
        digest ← or_fail (decode raw_std f5) undecodable_hash
        stored cost salt digest))
parse_fields _ = fail wrong_fields

-- parse
unfoldable pub parse : Bytes → Result HashError Stored
parse encoded = parse_fields (split b'$' encoded)

-- The text of HashPasswordWithParams.
unfoldable pub phc_text : Params → Bytes → Bytes → Bytes
phc_text p salt key =
    b'$'
    ∷ (codes "argon2id"
        ++ b'$'
          ∷ ((codes "v=" ++ decimal argon2id_version)
              ++ b'$'
                ∷ ((codes "m="
                      ++ (decimal p.memory
                          ++ (codes ",t="
                              ++ (decimal p.time ++ (codes ",p=" ++ decimal p.parallelism)))))
                    ++ b'$' ∷ (encode raw_std salt ++ b'$' ∷ encode raw_std key))))

abbrev pub has_zero : Params → Bool
has_zero p =
    p.salt_length == 0 || p.key_length == 0 || p.memory == 0 || p.time == 0 || p.parallelism == 0

-- `id_key` is argon2.IDKey: password, salt, time, memory, parallelism and key length.
module _ (id_key : Bytes → Bytes → ℕ → ℕ → ℕ → ℕ → Bytes) where
  -- HashPasswordWithParams
  unfoldable pub hash_password_with_params : Bytes → Params → M Bytes
  unfolding draw
  hash_password_with_params password p =
      if has_zero p
      then throw zero_cost
      else State.◌>>=◌ (draw p.salt_length) (λ salt.
        pure (phc_text p salt (id_key password salt p.time p.memory p.parallelism p.key_length)))

  -- HashPassword
  unfoldable pub hash_password : Bytes → M Bytes
  unfolding hash_password_with_params
  hash_password password = hash_password_with_params password default_params

  -- VerifyPassword
  unfoldable pub verify_password : Bytes → Bytes → Result HashError Bool
  verify_password encoded password = do
    row ← parse encoded
    pass (
        id_key password row.salt row.params.time row.params.memory row.params.parallelism
          row.params.key_length
        =ᵇ row.digest)
