-- ===== src/Db/Queries/Login/Seen.antt =====
-- What the two doors of the auth pool see of users and memberships.
use mascotapp.Base.{
  ℕ, ◌+◌, ◌≤◌, ◌≡◌, ◌≢◌, ◌⊎◌, ◌↔◌, refl, ap, sym, ◌∙◌, inl, inr, Bool, true, false, ◌&&◌, List, [],
  ◌∷◌, ◌++◌, All, Option, none, some, Bytes, length, to_lower, ◌=ᵇ◌, =ᵇ_iff, find, Bool-cases,
  if◌then◌else◌, arith,
}
use mascotapp.Db.State.{State, ok, M, nullif, statement-quiet, note, began_read_only}
use mascotapp.Db.Tenant.{nil_uuid}
use mascotapp.Db.Auth.{with_auth_user, with_auth_lookup}
use mascotapp.Db.Runs.{auth_scoped, after_commit, with_auth_user-run}
use mascotapp.Db.Queries.{owned, scope}
use mascotapp.Db.Queries.Login.{
  ListOwnMembershipsRow, memberships_of, list_own_memberships, GetUserCredentialsByEmailRow,
  get_user_credentials_by_email, fold_case,
}

-- The rows of one user.
abbrev pub own_rows : Bytes → List ListOwnMembershipsRow → List ListOwnMembershipsRow
own_rows u [] = []
own_rows u (r ∷ rs) = let rest = own_rows u rs in if r.user_id =ᵇ u then r ∷ rest else rest

memberships_of-own :
    (u : Bytes) (rs : List ListOwnMembershipsRow) → memberships_of (some u) u rs ≡ own_rows u rs
unfolding memberships_of owned
memberships_of-own u [] = refl
memberships_of-own u (r ∷ rs) = ground (arith, memberships_of-own u rs)

memberships_of-other :
    (u user : Bytes) (rs : List ListOwnMembershipsRow)
    → user ≢ u
    → memberships_of (some u) user rs ≡ []
unfolding memberships_of owned
memberships_of-other u user [] other = refl
memberships_of-other u user (r ∷ rs) other =
    elim (Bool-cases ((r.user_id =ᵇ u) && (r.user_id =ᵇ user))) [
      | inl both ↦ absurd (
          other (
            sym ((=ᵇ_iff r.user_id user).0 (ground (arith, both)))
            ∙ (=ᵇ_iff r.user_id u).0 (ground (arith, both))))
      | inr apart ↦ rw apart (memberships_of-other u user rs other)
    ]

memberships_of-none :
    (user : Bytes) (rs : List ListOwnMembershipsRow) → memberships_of none user rs ≡ []
unfolding memberships_of owned
memberships_of-none user [] = refl
memberships_of-none user (r ∷ rs) = memberships_of-none user rs

list-run :
    (memberships : List ListOwnMembershipsRow) (user : Bytes) (s : State)
    → s.faults ≡ []
    → list_own_memberships memberships user s ≡ (ok (memberships_of (scope s) user memberships), s)
unfolding list_own_memberships
list-run memberships user s quiet = rw (statement-quiet _ s quiet) refl

with_auth_lookup-run :
    {A : Type 0} (fn : M A) (s t : State) (a : A)
    → s.faults ≡ []
    → fn (record (note began_read_only s) { read_only = true }) ≡ (ok a, t)
    → t.faults ≡ []
    → with_auth_lookup fn s ≡ (ok a, after_commit t)
unfolding with_auth_lookup
with_auth_lookup-run fn s t a quiet ran still =
    rw (statement-quiet _ s quiet, ran, statement-quiet _ t still) refl

email-run :
    (users : List GetUserCredentialsByEmailRow) (email : Bytes) (s : State)
    → s.faults ≡ []
    → get_user_credentials_by_email users email s
      ≡ (ok (find (λ r. fold_case r.email =ᵇ fold_case email) users), s)
unfolding get_user_credentials_by_email
email-run users email s quiet = rw (statement-quiet _ s quiet) refl

-- Two bytes that differ at most in the case of a letter of ASCII.
abbrev pub SameLetter : ℕ → ℕ → Type 0
SameLetter a b =
    (a ≡ b) ⊎ (((b ≡ a + 32) × (b'A' ≤ a) × (a ≤ b'Z')) ⊎ ((a ≡ b + 32) × (b'A' ≤ b) × (b ≤ b'Z')))

abbrev pub SameButCase : Bytes → Bytes → Type 0
SameButCase [] [] = Unit
SameButCase [] (b ∷ ys) = ⊥
SameButCase (a ∷ xs) [] = ⊥
SameButCase (a ∷ xs) (b ∷ ys) = SameLetter a b × SameButCase xs ys

lower_iff : (a b : ℕ) → (to_lower a ≡ to_lower b) ↔ SameLetter a b
unfolding to_lower
lower_iff a b = ((λ h. ground (arith, h)), (λ h. ground (arith, h)))

fold_iff : (xs ys : Bytes) → (fold_case xs ≡ fold_case ys) ↔ SameButCase xs ys
fold_iff [] [] = ((λ h. tt), (λ h. refl))
fold_iff [] (y ∷ ys) = ((λ h. ground (arith, h)), (λ h. absurd h))
fold_iff (x ∷ xs) [] = ((λ h. ground (arith, h)), (λ h. absurd h))
fold_iff (x ∷ xs) (y ∷ ys) = (
  (λ h. ((lower_iff x y).0 (ground (arith, h)), (fold_iff xs ys).0 (ground (arith, h)))),
  (λ h. ground (arith, (lower_iff x y).1 h.0, (fold_iff xs ys).1 h.1)),
)

-- The first user whose email is the text up to case, or that there is none.
abbrev pub IsFirst :
    Bytes → List GetUserCredentialsByEmailRow → Option GetUserCredentialsByEmailRow → Type 0
IsFirst email users none = All (λ q. SameButCase q.email email → ⊥) users
IsFirst email users (some r) =
    (before : List GetUserCredentialsByEmailRow) × (after : List GetUserCredentialsByEmailRow)
    × (users ≡ before ++ r ∷ after)
    × SameButCase r.email email
    × All (λ q. SameButCase q.email email → ⊥) before

find-IsFirst :
    (email : Bytes) (users : List GetUserCredentialsByEmailRow)
    → IsFirst email users (find (λ r. fold_case r.email =ᵇ fold_case email) users)
find-IsFirst email [] = tt
find-IsFirst email (q ∷ users) =
    here (fold_case q.email =ᵇ fold_case email) refl (find-IsFirst email users)
  where
    later :
        (SameButCase q.email email → ⊥)
        → (o : Option GetUserCredentialsByEmailRow) → IsFirst email users o
        → IsFirst email (q ∷ users) o
    later apart none h = (apart, h)
    later apart (some r) (before, after, split, same, none_) =
        (q ∷ before, after, ap (λ us. q ∷ us) split, same, (apart, none_))

    here :
        (b : Bool)
        → (fold_case q.email =ᵇ fold_case email) ≡ b
        → IsFirst email users (find (λ r. fold_case r.email =ᵇ fold_case email) users)
        → IsFirst email (q ∷ users) (elim b [
          | true ↦ some q
          | false ↦ find (λ r. fold_case r.email =ᵇ fold_case email) users
        ])
    here true same rest = ([], users, refl, (fold_iff q.email email).0 ((=ᵇ_iff _ _).0 same), tt)
    here false other rest =
        let apart : SameButCase q.email email → ⊥ = λ h. grind (
          arith,
          other,
          (=ᵇ_iff (fold_case q.email) (fold_case email)).1 ((fold_iff q.email email).1 h),
        ) in
        later apart _ rest

no_user-cases : (o : Option Bytes) → nullif o ≡ none → (o ≡ none) ⊎ (o ≡ some [])
unfolding nullif
no_user-cases none h = inl refl
no_user-cases (some []) h = inr refl
no_user-cases (some (c ∷ cs)) h = absurd (ground (arith, h))

memberships_of-unscoped :
    (o : Option Bytes) (u : Bytes) (rs : List ListOwnMembershipsRow)
    → nullif o ≡ none
    → u ≢ []
    → memberships_of o u rs ≡ []
memberships_of-unscoped o u rs h real = elim (no_user-cases o h) [
  | inl e ↦ ap (λ c. memberships_of c u rs) e ∙ memberships_of-none u rs
  | inr e ↦ ap (λ c. memberships_of c u rs) e ∙ memberships_of-other [] u rs real
]

-- Where every statement runs and nullif reads no user in the connection's own setting, the door of one
-- user, whose uuid has sixteen bytes and is not the nil one, lists that user's memberships, and none when another user is asked for. The lookup door lists
-- none at all, and finds by a text the first user whose email is that text up to the case of the
-- letters of ASCII, and no user only if there is none.
pub doors-rows :
    (users : List GetUserCredentialsByEmailRow) (memberships : List ListOwnMembershipsRow)
    (u user email : Bytes) (s : State)
    → length u ≡ 16
    → u ≢ nil_uuid
    → user ≢ u
    → s.faults ≡ []
    → nullif (scope s) ≡ none
    → ((with_auth_user u (list_own_memberships memberships u) s).0 ≡ ok (own_rows u memberships))
      × ((with_auth_user u (list_own_memberships memberships user) s).0 ≡ ok [])
      × ((with_auth_lookup (list_own_memberships memberships u) s).0 ≡ ok [])
      × ((o : Option GetUserCredentialsByEmailRow) × ((with_auth_lookup
              (get_user_credentials_by_email users email)
              s).0
            ≡ ok o)
          × IsFirst email users o)
doors-rows users memberships u user email s sixteen real other quiet unscoped =
    let inside = auth_scoped u s in
    let looking = record (note began_read_only s) { read_only = true } in
    (
      ap (λ r. r.0)
            (with_auth_user-run u (list_own_memberships memberships u) s inside _ real quiet
              (list-run memberships u inside quiet) quiet)
          ∙ ap ok (memberships_of-own u memberships),
      ap (λ r. r.0)
            (with_auth_user-run u (list_own_memberships memberships user) s inside _ real quiet
              (list-run memberships user inside quiet) quiet)
          ∙ ap ok (memberships_of-other u user memberships other),
      ap (λ r. r.0)
            (with_auth_lookup-run (list_own_memberships memberships u) s looking _ quiet
              (list-run memberships u looking quiet) quiet)
          ∙ ap ok (
              memberships_of-unscoped (scope s) u memberships unscoped
                (λ e. ground (arith, sixteen, ap length e))),
      (
        find (λ r. fold_case r.email =ᵇ fold_case email) users,
        ap (λ r. r.0)
            (with_auth_lookup-run (get_user_credentials_by_email users email) s looking _ quiet
              (email-run users email looking quiet) quiet),
        find-IsFirst email users,
      ),
    )
