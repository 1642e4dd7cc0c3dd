-- ===== src/Db/Queries.antt =====
-- apps/api/internal/db/sqlcgen/auth.sql.go, over the tables of migrations 00002, 00013, 00014 and
-- 00017: the policies by which app_auth sees and writes the rows of app.user_id alone, and the
-- unique constraints.
pub mod Login
use mascotapp.Base.{
  ℕ, Bool, true, false, not, ◌&&◌, ◌||◌, List, [], ◌∷◌, ◌++◌, Option, none, some, Bytes, ◌=ᵇ◌,
  if◌then◌else◌, any, find, count, is_some,
}
use mascotapp.Errors.{
  Stage, looking_up, locking_family, revoking_family, revoking_presented, storing_token, pointing,
  clearing_codes, storing_code, redeeming, refused,
}
use mascotapp.Db.State.{State, RefreshToken, TotpRecoveryCode, current, ok, err, M, ◌>>◌, statement}

module _ {A : Type 0} where
  -- UPDATE … SET … WHERE …
  unfoldable pub update_where : (A → Bool) → (A → A) → List A → List A
  update_where p f [] = []
  update_where p f (r ∷ rs) = (if p r then f r else r) ∷ update_where p f rs

  -- DELETE … WHERE …
  unfoldable pub delete_where : (A → Bool) → List A → List A
  delete_where p [] = []
  delete_where p (r ∷ rs) = elim (p r) [ true ↦ delete_where p rs | false ↦ r ∷ delete_where p rs ]

-- user_id = nullif(current_setting('app.user_id', true), '')::uuid. The empty text is the id of no row.
unfoldable pub owned : Option Bytes → Bytes → Bool
owned none user = false
owned (some u) user = user =ᵇ u

abbrev pub scope : State → Option Bytes
scope s = current s.user_setting

-- revoked_at IS NULL
abbrev pub is_live : RefreshToken → Bool
is_live r = not (is_some r.revoked_at)

abbrev pub with_tokens : List RefreshToken → State → State
with_tokens rs s = record s { tables = record (s.tables) { refresh_tokens = rs } }

abbrev pub with_codes : List TotpRecoveryCode → State → State
with_codes rs s = record s { tables = record (s.tables) { recovery_codes = rs } }

-- A read-only transaction refuses to write.
abbrev pub writable : Stage → M (Unit {0})
writable stage s = if s.read_only then (err (refused stage), s) else (ok tt, s)

-- GetRefreshTokenByHash; `none` is pgx.ErrNoRows.
unfoldable pub get_refresh_token_by_hash : Bytes → M (Option RefreshToken)
unfolding owned
get_refresh_token_by_hash hash = do
  statement looking_up
  (λ s. (
    ok (find (λ r. owned (scope s) r.user_id && (r.token_hash =ᵇ hash)) s.tables.refresh_tokens),
    s,
  ))

-- LockRefreshTokenFamily. What the lock keeps out is in Auth/Session/Race.
unfoldable pub lock_refresh_token_family : Bytes → M (Unit {0})
lock_refresh_token_family family = statement locking_family

abbrev pub revoke : ℕ → RefreshToken → RefreshToken
revoke now r = record r { revoked_at = some now }

-- The rows that RevokeRefreshTokenFamily writes.
abbrev pub in_live_family : Option Bytes → Bytes → RefreshToken → Bool
in_live_family u family r = owned u r.user_id && (r.family_id =ᵇ family) && is_live r

-- RevokeRefreshTokenFamily
unfoldable pub revoke_refresh_token_family : Bytes → M ℕ
unfolding update_where owned
revoke_refresh_token_family family = do
  statement revoking_family
  writable revoking_family
  (λ s. (
    ok (count (in_live_family (scope s) family) s.tables.refresh_tokens),
    with_tokens
        (update_where (in_live_family (scope s) family) (revoke s.clock) s.tables.refresh_tokens) s,
  ))

-- The rows that RevokeRefreshTokenIfLive writes.
abbrev pub live_with_id : Option Bytes → Bytes → RefreshToken → Bool
live_with_id u id r = owned u r.user_id && (r.id =ᵇ id) && is_live r

-- RevokeRefreshTokenIfLive
unfoldable pub revoke_refresh_token_if_live : Bytes → M ℕ
unfolding update_where owned
revoke_refresh_token_if_live id = do
  statement revoking_presented
  writable revoking_presented
  (λ s. (
    ok (count (live_with_id (scope s) id) s.tables.refresh_tokens),
    with_tokens (update_where (live_with_id (scope s) id) (revoke s.clock) s.tables.refresh_tokens)
        s,
  ))

pub record InsertRefreshTokenParams : Type 0 where
  pub id : Bytes
  pub user_id : Bytes
  pub token_hash : Bytes
  pub family_id : Bytes
  pub expires_at : Option ℕ

-- The primary key, the unique hash, and 00017's one live row in a family.
unfoldable pub conflicts : InsertRefreshTokenParams → RefreshToken → Bool
conflicts arg r =
    (r.id =ᵇ arg.id)
    || (r.token_hash =ᵇ arg.token_hash)
    || (is_live r && (r.family_id =ᵇ arg.family_id))

-- The row that InsertRefreshToken writes, with the columns that it leaves to their defaults.
abbrev pub inserted : ℕ → InsertRefreshTokenParams → RefreshToken
inserted now arg = record {
  id = arg.id;
  user_id = arg.user_id;
  token_hash = arg.token_hash;
  family_id = arg.family_id;
  expires_at = arg.expires_at;
  revoked_at = none;
  replaced_by = none;
  user_agent = none;
  ip_hash = none;
  created_at = now;
}

-- InsertRefreshToken: the policy's WITH CHECK, NOT NULL of expires_at, and the constraints.
unfoldable pub insert_refresh_token : InsertRefreshTokenParams → M (Unit {0})
unfolding owned conflicts
insert_refresh_token arg = do
  statement storing_token
  writable storing_token
  (λ s.
      if owned (scope s) arg.user_id
        && is_some arg.expires_at
        && not (any (conflicts arg) s.tables.refresh_tokens)
      then (ok tt, with_tokens (s.tables.refresh_tokens ++ inserted s.clock arg ∷ []) s)
      else (err (refused storing_token), s))

-- The row that SetRefreshTokenReplacedBy writes.
abbrev pub own_with_id : Option Bytes → Bytes → RefreshToken → Bool
own_with_id u id r = owned u r.user_id && (r.id =ᵇ id)

abbrev pub point_at : Bytes → RefreshToken → RefreshToken
point_at successor r = record r { replaced_by = some successor }

-- SetRefreshTokenReplacedBy, with the foreign key of a written row into the same table.
unfoldable pub set_refresh_token_replaced_by : Bytes → Bytes → M (Unit {0})
unfolding update_where owned
set_refresh_token_replaced_by id successor = do
  statement pointing
  writable pointing
  (λ s.
      if any (λ r. r.id =ᵇ successor) s.tables.refresh_tokens
        || not (any (own_with_id (scope s) id) s.tables.refresh_tokens)
      then (
        ok tt,
        with_tokens
            (update_where (own_with_id (scope s) id) (point_at successor) s.tables.refresh_tokens)
            s,
      )
      else (err (refused pointing), s))

-- DeleteRecoveryCodesForUser
unfoldable pub delete_recovery_codes_for_user : Bytes → M ℕ
unfolding delete_where owned
delete_recovery_codes_for_user user = do
  statement clearing_codes
  writable clearing_codes
  (λ s.
      let hit = λ (r : TotpRecoveryCode). owned (scope s) r.user_id && (r.user_id =ᵇ user) in
      (
        ok (count hit s.tables.recovery_codes),
        with_codes (delete_where hit s.tables.recovery_codes) s,
      ))

-- InsertRecoveryCode: the policy's WITH CHECK, the primary key and the unique hash.
unfoldable pub insert_recovery_code : Bytes → Bytes → Bytes → M (Unit {0})
unfolding owned
insert_recovery_code id user hash = do
  statement storing_code
  writable storing_code
  (λ s.
      if owned (scope s) user
        && not (any (λ r. (r.id =ᵇ id) || (r.code_hash =ᵇ hash)) s.tables.recovery_codes)
      then (
        ok tt,
        with_codes
            (s.tables.recovery_codes
              ++ (record {
                id = id;
                user_id = user;
                code_hash = hash;
                used_at = none;
                created_at = s.clock;
              })
                ∷ [])
            s,
      )
      else (err (refused storing_code), s))

-- The rows that RedeemRecoveryCode writes.
abbrev pub unused_with_hash : Option Bytes → Bytes → TotpRecoveryCode → Bool
unused_with_hash u hash r = owned u r.user_id && (r.code_hash =ᵇ hash) && not (is_some r.used_at)

abbrev pub use_up : ℕ → TotpRecoveryCode → TotpRecoveryCode
use_up now r = record r { used_at = some now }

-- RedeemRecoveryCode
unfoldable pub redeem_recovery_code : Bytes → M ℕ
unfolding update_where owned
redeem_recovery_code hash = do
  statement redeeming
  writable redeeming
  (λ s. (
    ok (count (unused_with_hash (scope s) hash) s.tables.recovery_codes),
    with_codes
        (update_where (unused_with_hash (scope s) hash) (use_up s.clock) s.tables.recovery_codes) s,
  ))
