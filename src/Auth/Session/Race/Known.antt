-- ===== src/Auth/Session/Race/Known.antt =====
-- What the statements of a rotation keep: the row that a rotation holds stays in the table, and no
-- other row takes its id.
use mascotapp.Base.{
  ℕ, ◌≡◌, refl, Bool, true, false, not, ◌&&◌, ◌||◌, List, [], ◌∷◌, ◌++◌, ◌=ᵇ◌, =ᵇ_iff, arith, any,
  all,
}
use mascotapp.Db.State.{RefreshToken}
use mascotapp.Db.Queries.{InsertRefreshTokenParams, conflicts, inserted, update_where}

abbrev pub is_row : RefreshToken → RefreshToken → Bool
is_row p r = (r.id =ᵇ p.id) && (r.family_id =ᵇ p.family_id)

abbrev pub fits : RefreshToken → RefreshToken → Bool
fits p r = not (r.id =ᵇ p.id) || (r.family_id =ᵇ p.family_id)

module _ (q : RefreshToken → Bool) (f : RefreshToken → RefreshToken)
    (stable : (r : RefreshToken) → q (f r) ≡ q r) (h : RefreshToken → Bool) where
  pub any-update_where : (rs : List RefreshToken) → any q (update_where h f rs) ≡ any q rs
  unfolding update_where
  any-update_where [] = refl
  any-update_where (r ∷ rs) = ground (arith, any-update_where rs, stable r)

  pub all-update_where : (rs : List RefreshToken) → all q (update_where h f rs) ≡ all q rs
  unfolding update_where
  all-update_where [] = refl
  all-update_where (r ∷ rs) = ground (arith, all-update_where rs, stable r)

pub any-append_left :
    (q : RefreshToken → Bool) (rs : List RefreshToken) (r : RefreshToken)
    → any q rs ≡ true
    → any q (rs ++ r ∷ []) ≡ true
any-append_left q [] r h = cc
any-append_left q (x ∷ rs) r h = ground (arith, any-append_left q rs r)

-- A row that meets no constraint has another id than a known row.
pub fits-append :
    (p : RefreshToken) (arg : InsertRefreshTokenParams) (now : ℕ) (rs : List RefreshToken)
    → any (is_row p) rs ≡ true
    → any (conflicts arg) rs ≡ false
    → all (fits p) rs ≡ true
    → all (fits p) (rs ++ inserted now arg ∷ []) ≡ true
unfolding conflicts
fits-append p arg now rs there free h = all-append rs h (new rs there free)
  where
    new :
        (xs : List RefreshToken)
        → any (is_row p) xs ≡ true
        → any (conflicts arg) xs ≡ false
        → fits p (inserted now arg) ≡ true
    new [] there free = cc
    new (x ∷ xs) there free =
        ground (arith, new xs, =ᵇ_iff x.id p.id, =ᵇ_iff x.id arg.id, =ᵇ_iff arg.id p.id)

    all-append :
        (xs : List RefreshToken)
        → all (fits p) xs ≡ true
        → fits p (inserted now arg) ≡ true
        → all (fits p) (xs ++ inserted now arg ∷ []) ≡ true
    all-append [] h k = ground arith
    all-append (x ∷ xs) h k = ground (arith, all-append xs)
