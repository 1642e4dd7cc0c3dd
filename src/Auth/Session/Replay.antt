-- ===== src/Auth/Session/Replay.antt =====
-- A secret that is presented twice.
use mascotapp.Base.{
  ℕ, ◌≡◌, ◌∙◌, refl, sym, subst, Bool, true, ◌&&◌, List, [], ◌∷◌, ◌++◌, some, Bytes, ◌=ᵇ◌, =ᵇ_refl,
  arith, count, find, is_some, if◌then◌else◌,
}
use mascotapp.Errors.{refresh_token_reused}
use mascotapp.Db.State.{State, RefreshToken, ok, IsQuiet}
use mascotapp.Db.Queries.{
  owned, scope, update_where, revoke, point_at, live_with_id, own_with_id, inserted, in_live_family,
}
use mascotapp.Auth.Session.Rows.{find-passes, live-revoke_family}
use mascotapp.Auth.Session.Reuse.{presents, rotate_found, rotate_presented-reuse}
use mascotapp.Auth.Session.Rotation.{
  CanRotate, successor_of, rotated_rows, after_rotation, rotate-run,
}
use mascotapp.Auth.Session.{refusing, rotate_refresh_token}

find-append_left :
    (q : RefreshToken → Bool) (rs ys : List RefreshToken) (p : RefreshToken)
    → find q rs ≡ some p
    → find q (rs ++ ys) ≡ some p
find-append_left q [] ys p h = ground arith
find-append_left q (r ∷ rs) ys p h = ground (arith, find-append_left q rs ys p)

module _ (q h : RefreshToken → Bool) (f : RefreshToken → RefreshToken)
    (stable : (r : RefreshToken) → q (f r) ≡ q r) where
  -- An update that keeps a test finds the updated row where the row was found.
  find-update_where :
      (rs : List RefreshToken) (p : RefreshToken)
      → find q rs ≡ some p
      → find q (update_where h f rs) ≡ some (if h p then f p else p)
  unfolding update_where
  find-update_where [] p e = ground arith
  find-update_where (r ∷ rs) p e = ground (arith, find-update_where rs p, stable r)

module _ (sha256 : Bytes → Bytes) {s : State} {secret : Bytes} {p : RefreshToken} {xs : List ℕ}
    {id : Bytes} {now : ℕ} (can : CanRotate sha256 s secret p xs id now) where
  abbrev revoked_row : RefreshToken
  revoked_row = if live_with_id (scope s) p.id p then revoke s.clock p else p

  abbrev spent_row : RefreshToken
  spent_row =
      if own_with_id (scope s) p.id revoked_row then point_at id revoked_row else revoked_row

  found_again :
      presents sha256 (scope s) secret (rotated_rows sha256 s p xs id now) ≡ some spent_row
  found_again =
      let q = λ (r : RefreshToken). owned (scope s) r.user_id && (r.token_hash =ᵇ sha256 secret) in
      find-update_where q (own_with_id (scope s) p.id) (point_at id) (λ r. refl) _ revoked_row
        (find-append_left q _ (inserted s.clock (successor_of sha256 p xs id now) ∷ []) revoked_row
          (find-update_where q (live_with_id (scope s) p.id) (revoke s.clock) (λ r. refl)
            s.tables.refresh_tokens p can.found))

  spent_now : (is_some spent_row.revoked_at ≡ true) × (spent_row.family_id ≡ p.family_id)
  spent_now =
      let mine : owned (scope s) p.user_id ≡ true =
        ground (arith, find-passes _ s.tables.refresh_tokens p can.found) in
      (ground (arith, mine, can.live, =ᵇ_refl p.id), ground (arith, mine, can.live, =ᵇ_refl p.id))

  -- A secret that was rotated once, presented again at any later instant where the statements run, is
  -- refused as reuse, and no row of its family that the user owns stays live: the successor that the
  -- first rotation issued is revoked too.
  pub rotate-twice :
      (later : ℕ)
      → let t =
          rotate_refresh_token sha256 secret later (rotate_refresh_token sha256 secret now s).1 in
        (t.0 ≡ ok (refusing refresh_token_reused))
        × (count (in_live_family (scope s) p.family_id) t.1.tables.refresh_tokens ≡ 0)
  rotate-twice later =
      let after = after_rotation sha256 can in
      let still : IsQuiet after = record {
        no_faults = can.quiet.no_faults;
        writes = can.quiet.writes;
      } in
      let again =
        rotate_found sha256 after secret spent_row later still found_again
        ∙ rotate_presented-reuse sha256 after spent_row later still spent_now.0 in
      let rows = rotated_rows sha256 s p xs id now in
      rw (rotate-run sha256 can, again)
        (
          refl,
          subst
              (λ f.
                count (in_live_family (scope s) p.family_id)
                  (update_where (in_live_family (scope s) f) (revoke s.clock) rows)
                ≡ 0)
              (sym spent_now.1) (live-revoke_family (scope s) p.family_id s.clock rows),
        )
