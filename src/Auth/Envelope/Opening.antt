-- ===== src/Auth/Envelope/Opening.antt =====
-- What the envelope of auth/envelope.go promises.
use mascotapp.Base.{
  ℕ, zero, suc, ◌+◌, ◌≤◌, ◌≡◌, ◌≢◌, ◌∙◌, refl, sym, ap, subst, [], ◌∷◌, ◌++◌, Option, none, some,
  Bytes, length, take, drop, length-append, length-take, length-drop, take-append, drop-append,
  arith,
}
use mascotapp.Base.Results.{pass, fail, or_fail}
use mascotapp.Db.State.{State, ok}
use mascotapp.Db.Hoare.{bind-ok}
use mascotapp.Auth.Session.Entropy.{length-fit, draw, draw-ok}
use mascotapp.Auth.Envelope.{
  Envelope, not_authentic, associated_data, sealed_with, seal_envelope, open_envelope,
}

take++drop : (n : ℕ) (xs : Bytes) → take n xs ++ drop n xs ≡ xs
take++drop zero xs = refl
take++drop (suc n) [] = refl
take++drop (suc n) (x ∷ xs) = ap (λ zs. x ∷ zs) (take++drop n xs)

module _ (gcm_seal : Bytes → Bytes → Bytes → Bytes → Bytes)
    (gcm_open : Bytes → Bytes → Bytes → Bytes → Option Bytes) where
  -- Envelope.Open returns a text only for a blob of the format: version 1, key 1, a nonce of twelve
  -- bytes, and what the cipher opens under that nonce with the header and the owner authenticated.
  pub open_envelope-pass :
      (e : Envelope) (blob owner p : Bytes)
      → open_envelope gcm_seal gcm_open e blob owner ≡ pass p
      → (nonce : Bytes) × (sealed : Bytes) × (blob ≡ 1 ∷ 1 ∷ (nonce ++ sealed))
        × (length nonce ≡ 12)
        × (16 ≤ length sealed)
        × (gcm_open e.key nonce sealed (1 ∷ 1 ∷ owner) ≡ some p)
  unfolding open_envelope associated_data
  open_envelope-pass e [] owner p h = ground arith
  open_envelope-pass e (v ∷ []) owner p h = ground arith
  open_envelope-pass e (v ∷ k ∷ rest) owner p h = (
    take 12 rest,
    drop 12 rest,
    ground (arith, take++drop 12 rest),
    ground (arith, length-take 12 rest),
    ground (arith, length-drop 12 rest),
    ground arith,
  )

  module _ (long : (k n p a : Bytes) → length p + 16 ≤ length (gcm_seal k n p a))
      (opens : (k n p a : Bytes) → gcm_open k n (gcm_seal k n p a) a ≡ some p)
      (binds : (k n p a b : Bytes) → a ≢ b → gcm_open k n (gcm_seal k n p a) b ≡ none) where
    open-sealed :
        (e : Envelope) (nonce p owner other : Bytes)
        → length nonce ≡ 12
        → open_envelope gcm_seal gcm_open e (sealed_with gcm_seal gcm_open e nonce p owner) other
          ≡ or_fail
              (gcm_open e.key nonce (gcm_seal e.key nonce p (1 ∷ 1 ∷ owner)) (1 ∷ 1 ∷ other))
              not_authentic
    unfolding open_envelope sealed_with associated_data
    open-sealed e nonce p owner other twelve =
        let text = gcm_seal e.key nonce p (1 ∷ 1 ∷ owner) in
        let front : take 12 (nonce ++ text) ≡ nonce =
          subst (λ n. take n (nonce ++ text) ≡ nonce) twelve (take-append nonce text) in
        let back : drop 12 (nonce ++ text) ≡ text =
          subst (λ n. drop n (nonce ++ text) ≡ text) twelve (drop-append nonce text) in
        ground (arith, front, back, length-append nonce text, long e.key nonce p (1 ∷ 1 ∷ owner))

    tails : (xs ys : Bytes) → (1 ∷ 1 ∷ xs) ≡ (1 ∷ 1 ∷ ys) → xs ≡ ys
    tails xs ys h = ground arith

    sealed-form :
        (e : Envelope) (p owner blob : Bytes) (s : State)
        → (seal_envelope gcm_seal gcm_open e p owner s).0 ≡ ok blob
        → (nonce : Bytes) × (length nonce ≡ 12)
          × (blob ≡ sealed_with gcm_seal gcm_open e nonce p owner)
    unfolding seal_envelope
    sealed-form e p owner blob s h =
        let (nonce, drawn, on) = bind-ok (draw 12) _ s blob h in
        let (xs, is) = draw-ok 12 s nonce drawn in
        (nonce, ap length is ∙ length-fit 12 xs, ground (arith, ap (λ r. r.0) on))

    -- What Envelope.Seal sealed for an owner, Envelope.Open gives back to that owner, for a cipher that
    -- adds at least sixteen bytes and opens what it sealed.
    pub open_envelope-seal_envelope :
        (e : Envelope) (p owner blob : Bytes) (s : State)
        → (seal_envelope gcm_seal gcm_open e p owner s).0 ≡ ok blob
        → open_envelope gcm_seal gcm_open e blob owner ≡ pass p
    open_envelope-seal_envelope e p owner blob s h =
        let (nonce, twelve, whole) = sealed-form e p owner blob s h in
        ap (λ z. open_envelope gcm_seal gcm_open e z owner) whole
        ∙ open-sealed e nonce p owner owner twelve
        ∙ ap (λ o. or_fail o not_authentic) (opens e.key nonce p (1 ∷ 1 ∷ owner))

    -- Envelope.Open refuses what was sealed for another owner, for a cipher that opens nothing under
    -- other associated data than it was sealed with.
    pub open_envelope-other_owner :
        (e : Envelope) (p owner other blob : Bytes) (s : State)
        → (seal_envelope gcm_seal gcm_open e p owner s).0 ≡ ok blob
        → other ≢ owner
        → open_envelope gcm_seal gcm_open e blob other ≡ fail not_authentic
    open_envelope-other_owner e p owner other blob s h differs =
        let (nonce, twelve, whole) = sealed-form e p owner blob s h in
        ap (λ z. open_envelope gcm_seal gcm_open e z other) whole
        ∙ open-sealed e nonce p owner other twelve
        ∙ ap (λ o. or_fail o not_authentic)
            (binds e.key nonce p (1 ∷ 1 ∷ owner) (1 ∷ 1 ∷ other)
              (λ same. differs (sym (tails owner other same))))
