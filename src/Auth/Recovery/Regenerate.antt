-- ===== src/Auth/Recovery/Regenerate.antt =====
-- What RegenerateRecoveryCodes leaves: the new set for the user, and the codes of the others.
use mascotapp.Base.{
  ℕ, ◌≡◌, ◌≢◌, ◌∙◌, refl, sym, ap, Bool, true, false, ◌&&◌, ◌||◌, List, [], ◌∷◌, ◌++◌, Option, none,
  some, Bytes, ◌=ᵇ◌, =ᵇ_refl, any, arith,
}
use mascotapp.Db.State.{State, TotpRecoveryCode, ok, statement}
use mascotapp.Db.Queries.{
  owned, scope, delete_where, unused_with_hash, delete_recovery_codes_for_user,
  insert_recovery_code,
}
use mascotapp.Db.Auth.{with_auth_user}
use mascotapp.Db.Atomicity.{with_auth_user-scope}
use mascotapp.Db.Hoare.{bind-ok}
use mascotapp.Auth.Session.Entropy.{new_v7}
use mascotapp.Auth.Recovery.{RecoveryCode, store_codes, regenerate_recovery_codes}
use mascotapp.Auth.Recovery.Redeem.{codes_of, redeemable}

any-append :
    {A : Type 0} (p : A → Bool) (xs ys : List A) → any p (xs ++ ys) ≡ (any p xs || any p ys)
any-append p [] ys = refl
any-append p (x ∷ xs) ys = ground (arith, any-append p xs ys)

-- The codes of other users.
abbrev pub of_others : Bytes → List TotpRecoveryCode → List TotpRecoveryCode
of_others user = delete_where (λ r. r.user_id =ᵇ user)

others-append :
    (user : Bytes) (rs : List TotpRecoveryCode) (r : TotpRecoveryCode)
    → (r.user_id =ᵇ user) ≡ true
    → of_others user (rs ++ r ∷ []) ≡ of_others user rs
unfolding delete_where
others-append user [] r h = ground arith
others-append user (x ∷ rs) r h = ground (arith, others-append user rs r h)

others-delete :
    (u : Option Bytes) (user : Bytes) (rs : List TotpRecoveryCode)
    → of_others user (delete_where (λ r. owned u r.user_id && (r.user_id =ᵇ user)) rs)
      ≡ of_others user rs
unfolding delete_where
others-delete u user [] = refl
others-delete u user (r ∷ rs) = ground (arith, others-delete u user rs)

-- Once the user's rows are deleted, no code is redeemable.
cleared :
    (user hash : Bytes) (rs : List TotpRecoveryCode)
    → redeemable user hash
        (delete_where (λ r. owned (some user) r.user_id && (r.user_id =ᵇ user)) rs)
      ≡ false
unfolding delete_where owned
cleared user hash [] = refl
cleared user hash (r ∷ rs) = ground (arith, cleared user hash rs)

new_v7-same :
    (s : State) → ((new_v7 s).1.tables ≡ s.tables) × ((new_v7 s).1.user_setting ≡ s.user_setting)
unfolding new_v7
new_v7-same s = (ground arith, ground arith)

-- A row that InsertRecoveryCode stored.
insert-ok :
    (user hash : Bytes) (id code : Bytes) (s : State)
    → scope s ≡ some user
    → (insert_recovery_code id user code s).0 ≡ ok tt
    → (scope (insert_recovery_code id user code s).1 ≡ some user)
      × (redeemable user hash (codes_of (insert_recovery_code id user code s).1)
          ≡ (redeemable user hash (codes_of s) || (code =ᵇ hash)))
      × (of_others user (codes_of (insert_recovery_code id user code s).1)
          ≡ of_others user (codes_of s))
unfolding insert_recovery_code statement
insert-ok user hash id code s inside h =
    let row : TotpRecoveryCode = record {
      id = id;
      user_id = user;
      code_hash = code;
      used_at = none;
      created_at = s.clock;
    } in
    (
      ground arith,
      ground (
        arith,
        any-append (unused_with_hash (some user) hash) (codes_of s) (row ∷ []),
        =ᵇ_refl user,
      ),
      ground (arith, others-append user (codes_of s) row (=ᵇ_refl user)),
    )

store_codes-ok :
    (user hash : Bytes) (set : List RecoveryCode) (s : State)
    → scope s ≡ some user
    → (store_codes user set s).0 ≡ ok tt
    → (redeemable user hash (codes_of (store_codes user set s).1)
        ≡ (redeemable user hash (codes_of s) || any (λ c. c.hash =ᵇ hash) set))
      × (of_others user (codes_of (store_codes user set s).1) ≡ of_others user (codes_of s))
unfolding store_codes
store_codes-ok user hash [] s inside h = (ground arith, refl)
store_codes-ok user hash (c ∷ set) s inside h =
    let named = new_v7 s in
    let (id, _, on) = bind-ok new_v7 _ s tt h in
    let (_, stored, next) =
      bind-ok (insert_recovery_code id user c.hash) (λ _. store_codes user set) named.1 tt
        (ap (λ r. r.0) (sym on) ∙ h) in
    let same = new_v7-same s in
    let row = insert-ok user hash id c.hash named.1 (ground (arith, same.1)) stored in
    let rest =
      store_codes-ok user hash set (insert_recovery_code id user c.hash named.1).1 row.0
        (ap (λ r. r.0) (sym (on ∙ next)) ∙ h) in
    (
      ap (λ r. redeemable user hash (codes_of r.1)) (on ∙ next)
          ∙ rest.0
          ∙ ground (arith, row.1, ap (λ ts. redeemable user hash ts.recovery_codes) same.0),
      ap (λ r. of_others user (codes_of r.1)) (on ∙ next)
          ∙ rest.1
          ∙ row.2
          ∙ ap (λ ts. of_others user ts.recovery_codes) same.0,
    )

delete-ok :
    (user hash : Bytes) (s : State)
    → scope s ≡ some user
    → (n : ℕ) → (delete_recovery_codes_for_user user s).0 ≡ ok n
    → (scope (delete_recovery_codes_for_user user s).1 ≡ some user)
      × (redeemable user hash (codes_of (delete_recovery_codes_for_user user s).1) ≡ false)
      × (of_others user (codes_of (delete_recovery_codes_for_user user s).1)
          ≡ of_others user (codes_of s))
unfolding delete_recovery_codes_for_user statement
delete-ok user hash s inside n h = (
  ground arith,
  ground (arith, cleared user hash (codes_of s)),
  ground (arith, others-delete (scope s) user (codes_of s)),
)

regenerate-ok :
    (user hash : Bytes) (set : List RecoveryCode) (s : State)
    → scope s ≡ some user
    → (regenerate_recovery_codes user set s).0 ≡ ok tt
    → (redeemable user hash (codes_of (regenerate_recovery_codes user set s).1)
        ≡ any (λ c. c.hash =ᵇ hash) set)
      × (of_others user (codes_of (regenerate_recovery_codes user set s).1)
          ≡ of_others user (codes_of s))
unfolding regenerate_recovery_codes
regenerate-ok user hash [] s inside h = ground arith
regenerate-ok user hash (c ∷ set) s inside h =
    let (n, deleted, on) =
      bind-ok (delete_recovery_codes_for_user user) (λ _. store_codes user (c ∷ set)) s tt h in
    let gone = delete-ok user hash s inside n deleted in
    let after = (delete_recovery_codes_for_user user s).1 in
    let stored = store_codes-ok user hash (c ∷ set) after gone.0 (ap (λ r. r.0) (sym on) ∙ h) in
    (
      ap (λ r. redeemable user hash (codes_of r.1)) on ∙ stored.0 ∙ ground (arith, gone.1),
      ap (λ r. of_others user (codes_of r.1)) on ∙ stored.1 ∙ gone.2,
    )

not_empty :
    (user : Bytes) (set : List RecoveryCode) (s : State)
    → (regenerate_recovery_codes user set s).0 ≡ ok tt
    → set ≢ []
unfolding regenerate_recovery_codes
not_empty user [] s h e = ground arith
not_empty user (c ∷ set) s h e = ground arith

-- After RegenerateRecoveryCodes returns without an error under WithAuthUser, the user can redeem the
-- codes of the new set and no other, and the rows of every other user are as they were. The new set
-- is not empty.
pub regenerate-replaces :
    (user hash : Bytes) (set : List RecoveryCode) (s : State)
    → (with_auth_user user (regenerate_recovery_codes user set) s).0 ≡ ok tt
    → (redeemable user hash
          (codes_of (with_auth_user user (regenerate_recovery_codes user set) s).1)
        ≡ any (λ c. c.hash =ᵇ hash) set)
      × (of_others user (codes_of (with_auth_user user (regenerate_recovery_codes user set) s).1)
          ≡ of_others user (codes_of s))
      × (set ≢ [])
regenerate-replaces user hash set s h =
    let (s₁, inside, from, _, ran, left, _) =
      with_auth_user-scope (regenerate_recovery_codes user set) s user tt h in
    let done = regenerate-ok user hash set s₁ inside ran in
    (
      ap (λ ts. redeemable user hash ts.recovery_codes) left ∙ done.0,
      ap (λ ts. of_others user ts.recovery_codes) left
          ∙ done.1
          ∙ ap (λ ts. of_others user ts.recovery_codes) from,
      not_empty user set s₁ ran,
    )
