-- ===== src/Auth/Envelope.antt =====
-- apps/api/internal/auth/envelope.go: secrets at rest, sealed for their owner. AES-256-GCM is a
-- parameter.
pub mod Opening
use mascotapp.Base.{
  ℕ, ◌+◌, not, List, [], ◌∷◌, ◌++◌, Option, none, some, Bytes, length, take, drop, get_or, ltb,
  ◌==◌, if◌then◌else◌,
}
use mascotapp.Base.Results.{Result, pass, fail, or_fail}
use mascotapp.Db.State.{M, pure, continue, ◌>>=◌}
use mascotapp.Auth.Session.Entropy.{draw}

-- EnvelopeVersion
abbrev pub envelope_version : ℕ
envelope_version = 1

-- EnvelopeKeyID
abbrev pub envelope_key_id : ℕ
envelope_key_id = 1

abbrev pub envelope_key_length : ℕ
envelope_key_length = 32

abbrev pub envelope_nonce_length : ℕ
envelope_nonce_length = 12

abbrev pub envelope_tag_length : ℕ
envelope_tag_length = 16

abbrev pub envelope_header_length : ℕ
envelope_header_length = 2

abbrev pub envelope_min_length : ℕ
envelope_min_length = envelope_header_length + envelope_nonce_length + envelope_tag_length

-- Envelope, the cipher of a key.
pub record Envelope : Type 0 where
  pub key : Bytes

pub data EnvelopeError : Type 0 where
  key_length too_short : ℕ → EnvelopeError
  unsupported_version unknown_key_id : ℕ → EnvelopeError
  not_authentic : EnvelopeError

-- NewEnvelope. For a key of 32 bytes aes.NewCipher and cipher.NewGCM do not fail, and the nonce of GCM
-- has 12 bytes.
unfoldable pub new_envelope : Bytes → Result EnvelopeError Envelope
new_envelope key =
    if not (length key == envelope_key_length)
    then fail (key_length (length key))
    else pass (record { key = key })

-- associatedData
unfoldable pub associated_data : Bytes → Bytes → Bytes
associated_data header owner = header ++ owner

-- `gcm_seal` and `gcm_open` take the key, the nonce, the text and the associated data.
module _ (gcm_seal : Bytes → Bytes → Bytes → Bytes → Bytes)
    (gcm_open : Bytes → Bytes → Bytes → Bytes → Option Bytes) where
  -- The blob of Envelope.Seal, for the nonce that was drawn.
  unfoldable pub sealed_with : Envelope → Bytes → Bytes → Bytes → Bytes
  sealed_with e nonce plaintext owner =
      let header = envelope_version ∷ envelope_key_id ∷ [] in
      header ++ nonce ++ gcm_seal e.key nonce plaintext (associated_data header owner)

  -- Envelope.Seal
  unfoldable pub seal_envelope : Envelope → Bytes → Bytes → M Bytes
  unfolding draw
  seal_envelope e plaintext owner = do
    nonce ← draw envelope_nonce_length
    pure (sealed_with e nonce plaintext owner)

  -- Envelope.Open
  unfoldable pub open_envelope : Envelope → Bytes → Bytes → Result EnvelopeError Bytes
  open_envelope e blob owner =
      let version = get_or blob 0 0 in
      let key_id = get_or blob 1 0 in
      let rest = drop envelope_header_length blob in
      if ltb (length blob) envelope_min_length
      then fail (too_short (length blob))
      else if not (version == envelope_version)
      then fail (unsupported_version version)
      else if not (key_id == envelope_key_id)
      then fail (unknown_key_id key_id)
      else or_fail
          (gcm_open e.key (take envelope_nonce_length rest) (drop envelope_nonce_length rest)
            (associated_data (version ∷ key_id ∷ []) owner))
          not_authentic
