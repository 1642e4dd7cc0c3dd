-- ===== src/Rls/Harness/Opened.antt =====
-- What newEnv of container.go opens, guards and closes.
use mathlib.Core.List.{reverse-append}
use mascotapp.Base.{
  ◌∙◌, ◌≡◌, refl, ap, inl, inr, Bool, true, false, List, [], ◌∷◌, some, Bytes, Bool-cases,
  if◌then◌else◌,
}
use mascotapp.Base.Results.{Result, pass, fail}
use mascotapp.Rls.Roles.{RoleCapabilities, guard_role, IsBound, guard_role-pass_iff}
use mascotapp.Rls.Harness.{
  owner_role, app_roles, World, HarnessError, Guarded, Held, Resource, opening, closing, cleanup,
  app_pool, owner_pool, container, guarding, recorded, open_roles, new_env,
}

-- The server reported the roles, in order, and each is bound by the policies.
abbrev pub AreGuarded : World → List Bytes → Guarded → Type 0
AreGuarded world [] [] = Unit
AreGuarded world [] (g ∷ gs) = ⊥
AreGuarded world (role ∷ roles) [] = ⊥
AreGuarded world (role ∷ roles) (g ∷ gs) =
    (g.0 ≡ role)
    × (world.reported role ≡ some g.1)
    × IsBound g.1 owner_role
    × AreGuarded world roles gs

abbrev pub IsReady : World → List Bytes → Result HarnessError Guarded × Held → Type 0
IsReady world roles (pass guarded, held) =
    AreGuarded world roles guarded × (cleanup held ≡ held.opened)
IsReady world roles (fail e, held) = cleanup held ≡ held.opened

-- What is closed last was opened first.
closing-opening :
    (r : Resource) (held : Held)
    → cleanup held ≡ held.opened
    → cleanup (closing r (opening r held)) ≡ r ∷ held.opened
closing-opening r held h = reverse-append held.closers (r ∷ []) ∙ ap (λ rs. r ∷ rs) h

open_roles-IsReady :
    (world : World) (roles : List Bytes) (held : Held)
    → cleanup held ≡ held.opened
    → IsReady world roles (open_roles world roles held)
unfolding open_roles
open_roles-IsReady world [] held h = (tt, h)
open_roles-IsReady world (role ∷ roles) held h = elim (Bool-cases (world.app_pool_fails role)) [
  | inl down ↦ rw down h
  | inr up ↦
      let later = open_roles-IsReady world roles pooled even in
      rw up (guarded (guard_role (world.reported role) owner_role) refl _ later)
]
  where
    pooled : Held
    pooled = closing (app_pool role) (opening (app_pool role) held)

    even : cleanup pooled ≡ pooled.opened
    even = closing-opening (app_pool role) held h

    guarded :
        (r : Result _ RoleCapabilities)
        → guard_role (world.reported role) owner_role ≡ r
        → (rest : Result HarnessError Guarded × Held) → IsReady world roles rest
        → IsReady world (role ∷ roles) (guarding role (λ caps. recorded role caps rest) r pooled)
    guarded (fail e) s rest later = even
    guarded (pass caps) s (fail e, held') later = later
    guarded (pass caps) s (pass gs, held') (fine, closed) =
        let (said, bound) = (guard_role-pass_iff (world.reported role) owner_role caps).0 s in
        ((refl, said, bound, fine), closed)

abbrev nothing : Held
nothing = record { opened = []; closers = [] }

pub new_env-IsReady : (world : World) → IsReady world app_roles (new_env world)
unfolding new_env
new_env-IsReady world =
    let run =
      if world.container_returned then closing container (opening container nothing) else nothing in
    let even : cleanup run ≡ run.opened = begun world.container_returned in
    let pooled = closing owner_pool (opening owner_pool run) in
    let both = closing-opening owner_pool run even in
    let rest = open_roles-IsReady world app_roles pooled both in
    failing world.run_fails _ _ even (
      failing world.no_connection_string _ _ even
        (failing world.owner_pool_fails _ _ even (failing world.migrate_fails _ _ both rest)))
  where
    begun :
        (b : Bool)
        → cleanup (if b then closing container (opening container nothing) else nothing)
          ≡ (if b then closing container (opening container nothing) else nothing).opened
    begun true = refl
    begun false = refl

    failing :
        (b : Bool) (x y : Result HarnessError Guarded × Held)
        → IsReady world app_roles x
        → IsReady world app_roles y
        → IsReady world app_roles (if b then x else y)
    failing true x y p q = p
    failing false x y p q = q

pub even_of :
    (world : World) (r : Result HarnessError Guarded × Held)
    → IsReady world app_roles r
    → cleanup r.1 ≡ r.1.opened
even_of world (pass guarded, held) ready = ready.1
even_of world (fail e, held) ready = ready
