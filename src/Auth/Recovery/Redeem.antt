-- ===== src/Auth/Recovery/Redeem.antt =====
-- What a recovery code promises: it completes one login of its owner, and a new set replaces the old
-- one.
use mascotapp.Base.{
  ℕ, ◌≡◌, ◌≢◌, refl, sym, ap, subst, Bool, true, false, not, List, [], ◌∷◌, Option, some, Bytes,
  any, count, ◌==◌, arith,
}
use mascotapp.Db.State.{State, TotpRecoveryCode, ok, statement, statement-quiet}
use mascotapp.Db.Queries.{
  scope, update_where, unused_with_hash, use_up, with_codes, redeem_recovery_code,
}
use mascotapp.Db.Tenant.{nil_uuid}
use mascotapp.Db.Runs.{auth_scoped, with_auth_user-run}
use mascotapp.Db.Auth.{with_auth_user}
use mascotapp.Db.Atomicity.{with_auth_user-scope}
use mascotapp.Auth.Recovery.{hash_recovery_code, redeem}

abbrev pub codes_of : State → List TotpRecoveryCode
codes_of s = s.tables.recovery_codes

-- A code with this hash, unused, of this user.
abbrev pub redeemable : Bytes → Bytes → List TotpRecoveryCode → Bool
redeemable user hash rs = any (unused_with_hash (some user) hash) rs

count-any : {A : Type 0} (p : A → Bool) (xs : List A) → count p xs ≡ 0 → any p xs ≡ false
count-any p [] h = refl
count-any p (x ∷ xs) h = ground (arith, count-any p xs)

any-count : {A : Type 0} (p : A → Bool) (xs : List A) → (count p xs == 0) ≡ not (any p xs)
any-count p [] = refl
any-count p (x ∷ xs) = ground (arith, any-count p xs)

-- Using up the rows that match leaves none that does.
spent :
    (u : Option Bytes) (hash : Bytes) (now : ℕ) (rs : List TotpRecoveryCode)
    → any (unused_with_hash u hash) (update_where (unused_with_hash u hash) (use_up now) rs) ≡ false
unfolding update_where
spent u hash now [] = refl
spent u hash now (r ∷ rs) = ground (arith, spent u hash now rs)

module _ (sha256 : Bytes → Bytes) where
  redeem-ok :
      (plaintext : Bytes) (s : State)
      → (redeem sha256 plaintext s).0 ≡ ok tt
      → (any (unused_with_hash (scope s) (hash_recovery_code sha256 plaintext)) (codes_of s) ≡ true)
        × (any
              (unused_with_hash (scope s) (hash_recovery_code sha256 plaintext))
              (codes_of (redeem sha256 plaintext s).1)
            ≡ false)
  unfolding redeem redeem_recovery_code statement
  redeem-ok plaintext s h =
      let hash = hash_recovery_code sha256 plaintext in
      (
        ground (arith, any-count (unused_with_hash (scope s) hash) (codes_of s)),
        ground (arith, spent (scope s) hash s.clock (codes_of s)),
      )

  login :
      (user plaintext : Bytes) (s : State)
      → (with_auth_user user (redeem sha256 plaintext) s).0 ≡ ok tt
      → (redeemable user (hash_recovery_code sha256 plaintext) (codes_of s) ≡ true)
        × (redeemable user
              (hash_recovery_code sha256 plaintext)
              (codes_of (with_auth_user user (redeem sha256 plaintext) s).1)
            ≡ false)
  login user plaintext s h =
      let hash = hash_recovery_code sha256 plaintext in
      let (s₁, inside, from, _, ran, left, _) =
        with_auth_user-scope (redeem sha256 plaintext) s user tt h in
      let done = redeem-ok plaintext s₁ ran in
      (
        subst (λ u. any (unused_with_hash u hash) (codes_of s) ≡ true) inside
            (subst (λ ts. any (unused_with_hash (scope s₁) hash) ts.recovery_codes ≡ true) from
              done.0),
        subst
            (λ u.
              any (unused_with_hash u hash)
                (codes_of (with_auth_user user (redeem sha256 plaintext) s).1)
              ≡ false)
            inside
            (subst (λ ts. any (unused_with_hash (scope s₁) hash) ts.recovery_codes ≡ false)
              (sym left) done.1),
      )

  -- A code that completed a login of the user was, before, the unused code of a row of that user. It
  -- completes no second login: a later call with it, on the codes that the first call left, does not
  -- succeed, whatever else the state is.
  pub redeem-once :
      (user plaintext : Bytes) (s t : State)
      → (with_auth_user user (redeem sha256 plaintext) s).0 ≡ ok tt
      → codes_of t ≡ codes_of (with_auth_user user (redeem sha256 plaintext) s).1
      → (redeemable user (hash_recovery_code sha256 plaintext) (codes_of s) ≡ true)
        × ((with_auth_user user (redeem sha256 plaintext) t).0 ≢ ok tt)
  redeem-once user plaintext s t first later =
      let hash = hash_recovery_code sha256 plaintext in
      let before = login user plaintext s first in
      (
        before.0,
        λ second.
            grind
              (arith, before.1, (login user plaintext t second).0, ap (redeemable user hash) later),
      )

  -- A code that is redeemable by the user is redeemed, when the driver runs every statement.
  pub redeem-passes :
      (user plaintext : Bytes) (s : State)
      → user ≢ nil_uuid
      → s.faults ≡ []
      → redeemable user (hash_recovery_code sha256 plaintext) (codes_of s) ≡ true
      → s.read_only ≡ false
      → (with_auth_user user (redeem sha256 plaintext) s).0 ≡ ok tt
  unfolding redeem redeem_recovery_code
  redeem-passes user plaintext s real quiet has writes =
      let hash = hash_recovery_code sha256 plaintext in
      ap (λ o. o.0)
        (with_auth_user-run user (redeem sha256 plaintext) s
          (with_codes
            (update_where (unused_with_hash (some user) hash) (use_up s.clock) (codes_of s))
            (auth_scoped user s))
          tt real quiet
          (rw
            (
              statement-quiet _ (auth_scoped user s) quiet,
              writes,
              any-count (unused_with_hash (some user) hash) (codes_of s),
              has,
            )
            refl)
          quiet)
