-- ===== src/Auth/Session/Race/Closed.antt =====
-- Properties of the rows of refresh_tokens that every statement of a rotation keeps, and so the
-- whole rotation, wherever it stops.
use mascotapp.Base.{
  ℕ, ◌≡◌, sym, subst, false, List, [], ◌∷◌, ◌++◌, Bytes, Bool, arith, any, is_some, inl, inr,
  Bool-cases, true, ◌=ᵇ◌, ◌||◌, ◌&&◌, not,
}
use mascotapp.Errors.{Stage}
use mascotapp.Db.State.{State, RefreshToken, M, statement}
use mascotapp.Db.Hoare.{Keeps, Keeps->>=, Keeps->>, Keeps-if, Keeps-pure, Keeps-throw}
use mascotapp.Db.Queries.{
  InsertRefreshTokenParams, conflicts, inserted, update_where, revoke, point_at, own_with_id,
  writable, owned, scope, revoke_refresh_token_family, revoke_refresh_token_if_live,
  insert_refresh_token, set_refresh_token_replaced_by,
}
use mascotapp.Auth.Session.Entropy.{draw, new_v7}
use mascotapp.Auth.Session.{succeed, rotate_presented, issue_in_family_returning_id}

-- A property that revoking rows, pointing rows at successors, and inserting a row of one family that
-- meets no constraint all keep.
pub record Closed (family : Bytes) (R : List RefreshToken → Type 0) : Type 0 where
  pub revoking :
      (h : RefreshToken → Bool) (now : ℕ) (rs : List RefreshToken)
      → R rs
      → R (update_where h (revoke now) rs)
  pub pointing :
      (h : RefreshToken → Bool) (id : Bytes) (rs : List RefreshToken)
      → R rs
      → R (update_where h (point_at id) rs)
  pub inserting :
      (arg : InsertRefreshTokenParams) (now : ℕ) (rs : List RefreshToken)
      → arg.family_id ≡ family
      → any (conflicts arg) rs ≡ false
      → R rs
      → R (rs ++ inserted now arg ∷ [])

abbrev pub OnRows : (List RefreshToken → Type 0) → State → Type 0
OnRows R s = R s.tables.refresh_tokens

module _ (R : List RefreshToken → Type 0) where
  pub Keeps-of_same :
      {A : Type 0} {m : M A} → ((s : State) → (m s).1.tables ≡ s.tables) → Keeps (OnRows R) m
  Keeps-of_same same = record { apply = λ s r. subst (λ t. R t.refresh_tokens) (sym (same s)) r }

  pub Keeps-statement : (stage : Stage) → Keeps (OnRows R) (statement stage)
  Keeps-statement stage = Keeps-of_same (λ s. unfold statement in ground arith)

  Keeps-writable : (stage : Stage) → Keeps (OnRows R) (writable stage)
  Keeps-writable stage = Keeps-of_same (λ s. ground arith)

free : (a b : Bool) → (a && not b) ≡ true → b ≡ false
free a b h = ground arith

module _ (family : Bytes) (R : List RefreshToken → Type 0) (c : Closed family R) where
  pub revoke_family-Keeps : (f : Bytes) → Keeps (OnRows R) (revoke_refresh_token_family f)
  unfolding revoke_refresh_token_family
  revoke_family-Keeps f =
      Keeps->> _ _ _ (Keeps-statement R _)
        (Keeps->> _ _ _ (Keeps-writable R _) (record { apply = λ s r. c.revoking _ s.clock _ r }))

  revoke_if_live-Keeps : (id : Bytes) → Keeps (OnRows R) (revoke_refresh_token_if_live id)
  unfolding revoke_refresh_token_if_live
  revoke_if_live-Keeps id =
      Keeps->> _ _ _ (Keeps-statement R _)
        (Keeps->> _ _ _ (Keeps-writable R _) (record { apply = λ s r. c.revoking _ s.clock _ r }))

  set_replaced_by-Keeps :
      (id successor : Bytes) → Keeps (OnRows R) (set_refresh_token_replaced_by id successor)
  unfolding set_refresh_token_replaced_by
  set_replaced_by-Keeps id successor = Keeps->> _ _ _ (Keeps-statement R _) (
      Keeps->> _ _ _ (Keeps-writable R _) (record {
        apply = λ s r.
            elim (Bool-cases (
              any (λ q. q.id =ᵇ successor) s.tables.refresh_tokens
              || not (any (own_with_id (scope s) id) s.tables.refresh_tokens))) [
                | inl e ↦ rw e (c.pointing _ successor _ r)
                | inr e ↦ rw e r
              ];
      }))

  insert-Keeps :
      (arg : InsertRefreshTokenParams)
      → arg.family_id ≡ family
      → Keeps (OnRows R) (insert_refresh_token arg)
  unfolding insert_refresh_token
  insert-Keeps arg same = Keeps->> _ _ _ (Keeps-statement R _) (
      Keeps->> _ _ _ (Keeps-writable R _) (record {
        apply = λ s r.
            elim (Bool-cases (
              owned (scope s) arg.user_id
              && is_some arg.expires_at
              && not (any (conflicts arg) s.tables.refresh_tokens))) [
                | inl e ↦ rw e (c.inserting arg s.clock _ same (free _ _ e) r)
                | inr e ↦ rw e r
              ];
      }))

  draw-Keeps : (n : ℕ) → Keeps (OnRows R) (draw n)
  draw-Keeps n = Keeps-of_same R (λ s. unfold draw in ground arith)

  new_v7-Keeps : Keeps (OnRows R) new_v7
  new_v7-Keeps = Keeps-of_same R (λ s. unfold new_v7 in ground arith)

  module _ (sha256 : Bytes → Bytes) where
    pub issue-Keeps :
        (user f : Bytes) (now : ℕ)
        → f ≡ family
        → Keeps (OnRows R) (issue_in_family_returning_id sha256 user f now)
    unfolding issue_in_family_returning_id
    issue-Keeps user f now same = Keeps->>= _ _ _ (draw-Keeps _) (λ secret.
        Keeps->>= _ _ _ new_v7-Keeps (λ id. Keeps->> _ _ _ (insert-Keeps _ same) Keeps-pure))

    pub succeed-Keeps :
        (p : RefreshToken) (now : ℕ)
        → p.family_id ≡ family
        → Keeps (OnRows R) (succeed sha256 p now)
    unfolding succeed
    succeed-Keeps p now same =
        Keeps->>= _ _ _ (issue-Keeps _ _ _ same)
          (λ fresh. Keeps->> _ _ _ (set_replaced_by-Keeps _ _) Keeps-pure)

    -- What the parts of a rotation keep, a rotation of the family keeps.
    pub rotate_presented-Keeps :
        (p : RefreshToken) (now : ℕ)
        → p.family_id ≡ family
        → Keeps (OnRows R) (rotate_presented sha256 p now)
    unfolding rotate_presented
    rotate_presented-Keeps p now same = Keeps->> _ _ _ (Keeps-statement R _) (
        Keeps-if _ _ _ (Keeps->>= _ _ _ (revoke_family-Keeps _) (λ _. Keeps-pure)) (
          Keeps-if _ _ _ Keeps-pure (
            Keeps->>= _ _ _ (revoke_if_live-Keeps _)
              (λ n. Keeps-if _ _ _ Keeps-throw (succeed-Keeps p now same)))))
