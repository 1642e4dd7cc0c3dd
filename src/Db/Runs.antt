-- ===== src/Db/Runs.antt =====
-- How the transaction wrappers run when every statement does.
use mascotapp.Base.{◌≡◌, ◌≢◌, [], true, false, Bytes, arith, =ᵇ_iff, ◌=ᵇ◌}
use mascotapp.Db.State.{State, began, set_user, committed, ok, M, statement-quiet, note}
use mascotapp.Db.Tenant.{nil_uuid, set_config, forget_local}
use mascotapp.Db.Auth.{with_auth_user}

-- The state in which the callback of WithAuthUser starts.
abbrev pub auth_scoped : Bytes → State → State
auth_scoped user s =
    note set_user (record (note began s) { user_setting = set_config true user s.user_setting })

abbrev pub after_commit : State → State
after_commit s = note committed (record s {
  shelter_setting = forget_local s.shelter_setting;
  user_setting = forget_local s.user_setting;
  read_only = false;
})

=ᵇ-false : (xs ys : Bytes) → xs ≢ ys → (xs =ᵇ ys) ≡ false
=ᵇ-false xs ys h = ground (arith, =ᵇ_iff xs ys)

pub with_auth_user-run :
    {A : Type 0} (user : Bytes) (fn : M A) (s t : State) (a : A)
    → user ≢ nil_uuid
    → s.faults ≡ []
    → fn (auth_scoped user s) ≡ (ok a, t)
    → t.faults ≡ []
    → with_auth_user user fn s ≡ (ok a, after_commit t)
unfolding with_auth_user
with_auth_user-run user fn s t a real quiet ran still = rw (
  =ᵇ-false user nil_uuid real,
  statement-quiet _ s quiet,
  statement-quiet _ (note began s) quiet,
  ran,
  statement-quiet _ t still,
)
