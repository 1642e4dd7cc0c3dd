-- ===== src/Rls/Roles.antt =====
-- apps/api/internal/db/dbtest/roles.go: the guard that refuses a role which policies do not bind. What
-- the server answers about the current role is a parameter.
use mascotapp.Base.{
  ◌≡◌, ◌≢◌, ◌↔◌, inl, inr, ap, sym, subst, Bool, false, not, ◌&&◌, [], Option, none, some, Bytes,
  ◌=ᵇ◌, =ᵇ_iff, is_empty, is_empty-nil, Bool-cases, if◌then◌else◌, arith,
}
use mascotapp.Base.Results.{Result, pass, fail, ◌>>=◌, or_fail}

-- RoleCapabilities
pub record RoleCapabilities : Type 0 where
  pub name : Bytes
  pub super : Bool
  pub bypass_rls : Bool

-- ErrRoleCanBypassRLS, ErrRoleIsOwner and ErrRoleUnknown; role_unread is an error of the query.
pub data RoleError : Type 0 where
  role_can_bypass_rls role_is_owner : Bytes → RoleError
  role_unknown role_unread : RoleError

-- CheckRoleCannotBypassRLS: `none` is nil.
unfoldable pub check_role_cannot_bypass_rls : RoleCapabilities → Bytes → Option RoleError
check_role_cannot_bypass_rls caps owner_role =
    if is_empty caps.name
    then some role_unknown
    else if caps.super
    then some (role_can_bypass_rls caps.name)
    else if caps.bypass_rls
    then some (role_can_bypass_rls caps.name)
    else if not (is_empty owner_role) && (caps.name =ᵇ owner_role)
    then some (role_is_owner caps.name)
    else none

-- ReadRoleCapabilities, on what the query scans.
unfoldable pub read_role_capabilities : Option RoleCapabilities → Result RoleError RoleCapabilities
read_role_capabilities row = or_fail row role_unread

-- guardRole
unfoldable pub guard_role : Option RoleCapabilities → Bytes → Result RoleError RoleCapabilities
unfolding read_role_capabilities check_role_cannot_bypass_rls
guard_role row owner_role = do
  caps ← read_role_capabilities row
  elim (check_role_cannot_bypass_rls caps owner_role) [ some e ↦ fail e | none ↦ pass caps ]

-- A role that the policies bind.
pub record IsBound (caps : RoleCapabilities) (owner_role : Bytes) : Type 0 where
  pub named : caps.name ≢ []
  pub plain : caps.super ≡ false
  pub obeys : caps.bypass_rls ≡ false
  pub foreign : caps.name ≢ owner_role

check_sound :
    (caps : RoleCapabilities) (owner_role : Bytes)
    → check_role_cannot_bypass_rls caps owner_role ≡ none
    → IsBound caps owner_role
unfolding check_role_cannot_bypass_rls
check_sound caps owner_role h = elim (Bool-cases (is_empty caps.name)) [
  | inl blank ↦ ground arith
  | inr named ↦
      let has_name : caps.name ≢ [] = λ e. ground (arith, ap is_empty e) in
      record {
        named = has_name;
        plain = ground arith;
        obeys = ground arith;
        foreign = λ e. elim (Bool-cases (is_empty owner_role)) [
          | inl blank ↦ has_name (subst (λ n. n ≡ []) (sym e) (is_empty-nil owner_role blank))
          | inr owned ↦ ground (arith, (=ᵇ_iff caps.name owner_role).1 e)
        ];
      }
]

check_complete :
    (caps : RoleCapabilities) (owner_role : Bytes)
    → IsBound caps owner_role
    → check_role_cannot_bypass_rls caps owner_role ≡ none
unfolding check_role_cannot_bypass_rls
check_complete caps owner_role b = elim (Bool-cases (is_empty caps.name)) [
  | inl blank ↦ absurd (b.named (is_empty-nil caps.name blank))
  | inr named ↦ elim (Bool-cases (caps.name =ᵇ owner_role)) [
    | inl same ↦ absurd (b.foreign ((=ᵇ_iff caps.name owner_role).0 same))
    | inr other ↦ ground (arith, b.plain, b.obeys)
  ]
]

-- The guard lets a pool through exactly if the server reports its role, and the role is one that
-- policies bind: it has a name, is no superuser, does not bypass row security and does not own the
-- objects. It then hands back what the server reported.
pub guard_role-pass_iff :
    (row : Option RoleCapabilities) (owner_role : Bytes) (caps : RoleCapabilities)
    → (guard_role row owner_role ≡ pass caps) ↔ ((row ≡ some caps) × IsBound caps owner_role)
unfolding guard_role read_role_capabilities
guard_role-pass_iff none owner_role caps = ((λ h. ground arith), (λ h. ground (arith, h.0)))
guard_role-pass_iff (some found) owner_role caps = (
  (λ h.
      let same : found ≡ caps = ground arith in
      (
        ap some same,
        subst (λ r. IsBound r owner_role) same (check_sound found owner_role (ground arith)),
      )),
  (λ h.
      let fine : check_role_cannot_bypass_rls caps owner_role ≡ none =
        check_complete caps owner_role h.1 in
      ground (arith, h.0)),
)
