-- ===== src/Auth/Session/Race/Reach.antt =====
-- Any number of rotations and logins, in any order: the histories of the table, and what no history
-- changes.
use mascotapp.Base.{
  ℕ, ◌≤◌, ◌≡◌, ◌∙◌, ap, refl, ◌≢◌, inl, inr, Bool, Bool-cases, true, false, List, [], ◌∷◌, Bytes,
  ◌=ᵇ◌, =ᵇ_iff, arith, count, count-append, any, all, Option, length,
}
use mascotapp.Db.State.{State, RefreshToken, statement, next_fails}
use mascotapp.Db.Hoare.{Keeps, Keeps->>=, Keeps->>, Keeps-if, Keeps-pure, Keeps-bind, After}
use mascotapp.Db.Queries.{
  InsertRefreshTokenParams, conflicts, inserted, revoke, point_at, scope, live_with_id,
  revoke_refresh_token_if_live,
}
use mascotapp.Auth.Session.Rows.{live_in, live-revoke, live-point_at}
use mascotapp.Auth.Session.Race.Known.{
  is_row, fits, any-update_where, all-update_where, any-append_left, fits-append,
}
use mascotapp.Auth.Session.Race.Closed.{Closed, OnRows, revoke_family-Keeps, Keeps-statement}
use mascotapp.Auth.Session.{rotate_presented}

abbrev pub of_family : Bytes → RefreshToken → Bool
of_family family r = r.family_id =ᵇ family

-- A family that has rows, and no live one.
abbrev pub Dead : Bytes → List RefreshToken → Type 0
Dead family rs = (any (of_family family) rs ≡ true) × (count (live_in family) rs ≡ 0)

abbrev pub OneLive : Bytes → List RefreshToken → Type 0
OneLive family rs = count (live_in family) rs ≤ 1

-- The row is in the table, and every row with its id, the primary key, is of its family.
abbrev pub Known : RefreshToken → List RefreshToken → Type 0
Known p rs = (any (is_row p) rs ≡ true) × (all (fits p) rs ≡ true)

pub Known-Closed : (family : Bytes) (p : RefreshToken) → Closed family (Known p)
Known-Closed family p = record {
  revoking = λ h now rs k. (
    any-update_where (is_row p) (revoke now) (λ r. refl) h rs ∙ k.0,
    all-update_where (fits p) (revoke now) (λ r. refl) h rs ∙ k.1,
  );
  pointing = λ h id rs k. (
    any-update_where (is_row p) (point_at id) (λ r. refl) h rs ∙ k.0,
    all-update_where (fits p) (point_at id) (λ r. refl) h rs ∙ k.1,
  );
  inserting = λ arg now rs same free k.
      (any-append_left (is_row p) rs (inserted now arg) k.0, fits-append p arg now rs k.0 free k.1);
}

pub Dead-Closed : (family other : Bytes) → other ≢ family → Closed other (Dead family)
Dead-Closed family other differs = record {
  revoking = λ h now rs d. (
    any-update_where (of_family family) (revoke now) (λ r. refl) h rs ∙ d.0,
    omega (arith, live-revoke h family now rs, d.1),
  );
  pointing = λ h id rs d. (
    any-update_where (of_family family) (point_at id) (λ r. refl) h rs ∙ d.0,
    live-point_at h family id rs ∙ d.1,
  );
  inserting = λ arg now rs same free d. (
    any-append_left (of_family family) rs (inserted now arg) d.0,
    ground (
      arith,
      count-append (live_in family) rs (inserted now arg ∷ []),
      d.1,
      =ᵇ_iff arg.family_id family,
    ),
  );
}

-- A row that meets no constraint finds no live row of its family.
live_free :
    (arg : InsertRefreshTokenParams) (rs : List RefreshToken)
    → any (conflicts arg) rs ≡ false
    → count (live_in arg.family_id) rs ≡ 0
unfolding conflicts
live_free arg [] free = refl
live_free arg (r ∷ rs) free = ground (arith, live_free arg rs)

pub OneLive-Closed : (family other : Bytes) → Closed other (OneLive family)
OneLive-Closed family other = record {
  revoking = λ h now rs d. omega (arith, live-revoke h family now rs, d);
  pointing = λ h id rs d. omega (arith, live-point_at h family id rs, d);
  inserting = λ arg now rs same free d. ground (
    arith,
    count-append (live_in family) rs (inserted now arg ∷ []),
    live_free arg rs free,
    d,
    =ᵇ_iff arg.family_id family,
  );
}

abbrev pub DeadKnown : RefreshToken → List RefreshToken → Type 0
DeadKnown p rs = Dead p.family_id rs × Known p rs

-- No family is its own number longer.
other_family : (family : Bytes) → 0 ∷ family ≢ family
other_family family e = omega (arith, ap length e)

DeadKnown-Closed : (p : RefreshToken) → Closed (0 ∷ p.family_id) (DeadKnown p)
DeadKnown-Closed p =
    let d = Dead-Closed p.family_id (0 ∷ p.family_id) (other_family p.family_id) in
    let k = Known-Closed (0 ∷ p.family_id) p in
    record {
      revoking = λ h now rs b. (d.revoking h now rs b.0, k.revoking h now rs b.1);
      pointing = λ h id rs b. (d.pointing h id rs b.0, k.pointing h id rs b.1);
      inserting = λ arg now rs same free b.
          (d.inserting arg now rs same free b.0, k.inserting arg now rs same free b.1);
    }

-- In a dead family no row can be revoked by its id.
none_to_revoke :
    (u : Option Bytes) (p : RefreshToken) (rs : List RefreshToken)
    → count (live_in p.family_id) rs ≡ 0
    → all (fits p) rs ≡ true
    → count (live_with_id u p.id) rs ≡ 0
none_to_revoke u p [] d k = refl
none_to_revoke u p (r ∷ rs) d k = ground (arith, none_to_revoke u p rs)

-- So RevokeRefreshTokenIfLive reports no row.
revoke_if_live-dead :
    (p : RefreshToken) (s : State)
    → OnRows (DeadKnown p) s
    → After
        (OnRows (DeadKnown p))
        (λ n t. (n ≡ 0) × OnRows (DeadKnown p) t)
        (revoke_refresh_token_if_live p.id s)
unfolding statement revoke_refresh_token_if_live
revoke_if_live-dead p s h = elim (Bool-cases (next_fails s)) [
  | inl fails ↦ rw fails h
  | inr runs ↦ elim (Bool-cases s.read_only) [
    | inl refuses ↦ rw (runs, refuses) h
    | inr writes ↦
        rw (runs, writes)
          (
            none_to_revoke (scope s) p s.tables.refresh_tokens h.0.1 h.1.1,
            (DeadKnown-Closed p).revoking _ s.clock s.tables.refresh_tokens h,
          )
  ]
]

module _ (sha256 : Bytes → Bytes) where
  -- A rotation of a dead family, by whatever stale row, gives it no live row.
  pub rotate_presented-dead :
      (p : RefreshToken) (now : ℕ) → Keeps (OnRows (DeadKnown p)) (rotate_presented sha256 p now)
  unfolding rotate_presented
  rotate_presented-dead p now =
      let c = DeadKnown-Closed p in
      let P = OnRows (DeadKnown p) in
      Keeps->> P _ _ (Keeps-statement (DeadKnown p) _) (
        Keeps-if _ _ _ (Keeps->>= P _ _ (revoke_family-Keeps _ (DeadKnown p) c _) (λ _. Keeps-pure))
          (Keeps-if _ _ _ (Keeps-pure) (
            Keeps-bind P (λ n t. (n ≡ 0) × P t) _ _ (revoke_if_live-dead p) (λ n t h. rw h.0 h.1))))
