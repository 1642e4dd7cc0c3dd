-- ===== src/Auth/Session/Rows.antt =====
-- Facts about rows that are updated in place.
use mascotapp.Base.{
  ℕ, suc, ◌≤◌, ◌≡◌, ◌≢◌, refl, Bool, true, false, ◌&&◌, ◌||◌, List, [], ◌∷◌, ◌++◌, Option, some,
  Bytes, ◌=ᵇ◌, arith, count, find, any,
}
use mascotapp.Db.State.{RefreshToken}
use mascotapp.Db.Queries.{
  InsertRefreshTokenParams, conflicts, update_where, is_live, revoke, point_at, in_live_family,
}

-- The live rows of a family, whoever owns them.
abbrev pub live_in : Bytes → RefreshToken → Bool
live_in family r = (r.family_id =ᵇ family) && is_live r

module _ (p : RefreshToken → Bool) (family : Bytes) where
  -- Revoking rows makes none live.
  pub live-revoke :
      (now : ℕ) (rs : List RefreshToken)
      → count (live_in family) (update_where p (revoke now) rs) ≤ count (live_in family) rs
  unfolding update_where
  live-revoke now [] = omega arith
  live-revoke now (r ∷ rs) = ground (arith, live-revoke now rs)

  pub live-point_at :
      (id : Bytes) (rs : List RefreshToken)
      → count (live_in family) (update_where p (point_at id) rs) ≡ count (live_in family) rs
  unfolding update_where
  live-point_at id [] = omega arith
  live-point_at id (r ∷ rs) = ground (arith, live-point_at id rs)

-- After the live rows of a family that a user owns are revoked, the user owns no live row of it.
pub live-revoke_family :
    (u : Option Bytes) (family : Bytes) (now : ℕ) (rs : List RefreshToken)
    → count (in_live_family u family) (update_where (in_live_family u family) (revoke now) rs) ≡ 0
unfolding update_where
live-revoke_family u family now [] = omega arith
live-revoke_family u family now (r ∷ rs) = ground (arith, live-revoke_family u family now rs)

-- The found row passes the test, and so every test that it implies counts it.
pub find-passes :
    (q : RefreshToken → Bool) (rs : List RefreshToken) (p : RefreshToken)
    → find q rs ≡ some p
    → q p ≡ true
find-passes q [] p e = cc
find-passes q (r ∷ rs) p e = ground (arith, find-passes q rs p)

pub find-count :
    (q h : RefreshToken → Bool) (rs : List RefreshToken) (p : RefreshToken)
    → find q rs ≡ some p
    → h p ≡ true
    → count h rs ≢ 0
find-count q h [] p e k = cc
find-count q h (r ∷ rs) p e k = ground (arith, find-count q h rs p)

-- Revoking a live row of a family that was found leaves one live row less, at least.
pub live-revoke_found :
    (q h : RefreshToken → Bool) (family : Bytes) (now : ℕ) (rs : List RefreshToken)
    (p : RefreshToken)
    → find q rs ≡ some p
    → h p ≡ true
    → live_in family p ≡ true
    → suc (count (live_in family) (update_where h (revoke now) rs)) ≤ count (live_in family) rs
unfolding update_where
live-revoke_found q h family now [] p e k l = cc
live-revoke_found q h family now (r ∷ rs) p e k l =
    ground (arith, live-revoke_found q h family now rs p, live-revoke h family now rs)

-- A row that has neither a given id nor a given hash.
abbrev pub names : Bytes → Bytes → RefreshToken → Bool
names id hash r = (r.id =ᵇ id) || (r.token_hash =ᵇ hash)

pub names-revoke :
    (id hash : Bytes) (h : RefreshToken → Bool) (now : ℕ) (rs : List RefreshToken)
    → any (names id hash) (update_where h (revoke now) rs) ≡ any (names id hash) rs
unfolding update_where
names-revoke id hash h now [] = refl
names-revoke id hash h now (r ∷ rs) = ground (arith, names-revoke id hash h now rs)

-- A new row meets no constraint where its id and its hash are new and its family has no live row.
pub conflicts_free :
    (arg : InsertRefreshTokenParams) (rs : List RefreshToken)
    → any (names arg.id arg.token_hash) rs ≡ false
    → count (live_in arg.family_id) rs ≡ 0
    → any (conflicts arg) rs ≡ false
unfolding conflicts
conflicts_free arg [] n l = refl
conflicts_free arg (r ∷ rs) n l = ground (arith, conflicts_free arg rs)

pub any-append :
    (q : RefreshToken → Bool) (rs : List RefreshToken) (r : RefreshToken)
    → q r ≡ true
    → any q (rs ++ r ∷ []) ≡ true
any-append q [] r h = ground arith
any-append q (x ∷ rs) r h = ground (arith, any-append q rs r h)
