-- ===== src/Db/Bootstrap/Roles.antt =====
-- The roles that db/bootstrap.go may set a password for.
use mascotapp.Base.{
  ℕ, ◌≤◌, ◌≡◌, ◌≢◌, ◌↔◌, ◌∙◌, refl, ap, true, [], ◌∷◌, ◌++◌, some, Bytes, codes, all, is_empty,
  is_empty-nil, length, strip_prefix, strip_prefix-append, strip_prefix-some, trim_space,
  Option-cases, Bool-cases, inl, inr, arith,
}
use mascotapp.Base.Results.{pass}
use mascotapp.Db.Bootstrap.{
  is_lower, is_role_char, is_role_suffix, is_role_name, validate_role_credentials,
}

-- app_, a small letter, and at most forty small letters, digits and underscores.
abbrev pub IsRoleName : Bytes → Type 0
IsRoleName role =
    (c : ℕ) × (cs : Bytes) × (role ≡ codes "app_" ++ c ∷ cs)
    × (is_lower c ≡ true)
    × (length cs ≤ 40)
    × (all is_role_char cs ≡ true)

suffix_cases :
    (suffix : Bytes)
    → is_role_suffix suffix ≡ true
    → (c : ℕ) × (cs : Bytes) × (suffix ≡ c ∷ cs)
      × (is_lower c ≡ true)
      × (length cs ≤ 40)
      × (all is_role_char cs ≡ true)
unfolding is_role_suffix
suffix_cases [] h = ground arith
suffix_cases (c ∷ cs) h = (c, cs, refl, ground arith, ground arith, ground arith)

name_sound : (role : Bytes) → is_role_name role ≡ true → IsRoleName role
unfolding is_role_name
name_sound role h = elim (Option-cases (strip_prefix (codes "app_") role)) [
  | inl bad ↦ ground arith
  | inr (suffix, strips) ↦
      let (c, cs, is, lower, short, chars) = suffix_cases suffix (ground arith) in
      (
        c,
        cs,
        strip_prefix-some (codes "app_") role suffix strips ∙ ap (λ x. codes "app_" ++ x) is,
        lower,
        short,
        chars,
      )
]

name_complete : (role : Bytes) → IsRoleName role → is_role_name role ≡ true
unfolding is_role_name is_role_suffix
name_complete role (c, cs, is, lower, short, chars) =
    let strips : strip_prefix (codes "app_") role ≡ some (c ∷ cs) =
      ap (strip_prefix (codes "app_")) is ∙ strip_prefix-append (codes "app_") (c ∷ cs) in
    ground arith

accepted :
    (role password : Bytes)
    → is_role_name role ≡ true
    → trim_space password ≢ []
    → validate_role_credentials role password ≡ pass tt
unfolding validate_role_credentials
accepted role password named real = elim (Bool-cases (is_empty (trim_space password))) [
  | inl blank ↦ elim (real (is_empty-nil (trim_space password) blank)) [ ]
  | inr fine ↦ ground arith
]

-- Credentials are accepted exactly for one of the application's own role names and a password that
-- is not blank.
pub validate_role_credentials-pass_iff :
    (role password : Bytes)
    → (validate_role_credentials role password ≡ pass tt)
      ↔ (IsRoleName role × (trim_space password ≢ []))
unfolding validate_role_credentials
validate_role_credentials-pass_iff role password = (
  (λ h. (name_sound role (ground arith), (λ e. grind (arith, h, ap is_empty e)))),
  (λ h. accepted role password (name_complete role h.0) h.1),
)
