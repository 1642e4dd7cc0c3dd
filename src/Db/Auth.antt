-- ===== src/Db/Auth.antt =====
-- apps/api/internal/db/auth.go: WithAuthUser and WithAuthLookup.
use mascotapp.Base.{true, Bytes, ◌=ᵇ◌, if◌then◌else◌}
use mascotapp.Errors.{setting_scope, no_auth_user}
use mascotapp.Db.State.{set_user, ok, M, pure, throw, ◌>>◌, statement, note}
use mascotapp.Db.Tenant.{nil_uuid, begin, begin_read_only, set_config, scoped}

-- setAuthScopeSQL
unfoldable pub set_auth_scope : Bytes → M (Unit {0})
set_auth_scope user = do
  statement setting_scope
  (λ s. (ok tt, note set_user (record s { user_setting = set_config true user s.user_setting })))

-- WithAuthUser
unfoldable pub with_auth_user : {A : Type 0} → Bytes → M A → M A
unfolding begin scoped set_auth_scope
with_auth_user user fn =
    if user =ᵇ nil_uuid then throw no_auth_user else (do begin; scoped (set_auth_scope user) fn)

-- WithAuthLookup, which sets no scope.
unfoldable pub with_auth_lookup : {A : Type 0} → M A → M A
unfolding begin_read_only scoped
with_auth_lookup fn = do begin_read_only; scoped (pure tt) fn
