-- ===== src/Base/Perms.antt =====
-- What a permutation of a list keeps.
use mathlib.Core.Path.{◌≡◌, refl, ap, sym, ◌∙◌, subst}
use mathlib.Core.Logic.{inl, inr}
use mathlib.Core.List.{List, [], ◌∷◌, ◌++◌, map, Permᴰ}
use mathlib.Core.List.Permᴰ
use Prim.Native.Nat.{suc}
use mascotapp.Base.Lists.{All, length}
use mascotapp.Base.Texts.{Bytes}
use mascotapp.Base.Members.{In, Distinct}

module _ {ℓ} {A : Type ℓ} where
  pub All-perm : (P : A → Type 0) {xs ys : List A} → Permᴰ xs ys → All P ys → All P xs
  All-perm P Permᴰ.nil h = h
  All-perm P (Permᴰ.cons e p) (q, h) = (subst P (sym e) q, All-perm P p h)
  All-perm P (Permᴰ.swap e f) (q, rest) =
      let (r, h) = rest in (subst P (sym e) r, (subst P (sym f) q, h))
  All-perm P (Permᴰ.trans p q) h = All-perm P p (All-perm P q h)

  pub append-perm :
      {xs xs' ys ys' : List A} → Permᴰ xs xs' → Permᴰ ys ys' → Permᴰ (xs ++ ys) (xs' ++ ys')
  append-perm {xs'} {ys} p q = Permᴰ.trans (Permᴰ.append_right ys p) (Permᴰ.append_left xs' q)

  -- Two lists before a third change places.
  pub append_swap : (xs ys zs : List A) → Permᴰ (xs ++ (ys ++ zs)) (ys ++ (xs ++ zs))
  append_swap [] ys zs = Permᴰ.refl (ys ++ zs)
  append_swap (x ∷ xs) ys zs =
      Permᴰ.trans (Permᴰ.cons refl (append_swap xs ys zs))
        (Permᴰ.symm (Permᴰ.middle x ys (xs ++ zs)))

  pub map-perm :
      {B : Type 0} (f : A → B) {xs ys : List A} → Permᴰ xs ys → Permᴰ (map f xs) (map f ys)
  map-perm f Permᴰ.nil = Permᴰ.nil
  map-perm f (Permᴰ.cons e p) = Permᴰ.cons (ap f e) (map-perm f p)
  map-perm f (Permᴰ.swap e e') = Permᴰ.trans (Permᴰ.swap (ap f e) (ap f e')) (Permᴰ.refl _)
  map-perm f (Permᴰ.trans p q) = Permᴰ.trans (map-perm f p) (map-perm f q)

pub length-perm {ℓ} : {A : Type ℓ} {xs ys : List A} → Permᴰ xs ys → length xs ≡ length ys
length-perm Permᴰ.nil = refl
length-perm (Permᴰ.cons e p) = ap suc (length-perm p)
length-perm (Permᴰ.swap e f) = refl
length-perm (Permᴰ.trans p q) = length-perm p ∙ length-perm q

pub In-perm : {xs ys : List Bytes} → Permᴰ xs ys → (a : Bytes) → In a xs → In a ys
In-perm Permᴰ.nil a m = m
In-perm (Permᴰ.cons e p) a m = elim m [ inl h ↦ inl (h ∙ e) | inr h ↦ inr (In-perm p a h) ]
In-perm (Permᴰ.swap e f) a m = elim m [
  | inl h ↦ inr (inl (h ∙ e))
  | inr n ↦ elim n [ inl h ↦ inl (h ∙ f) | inr h ↦ inr (inr h) ]
]
In-perm (Permᴰ.trans p q) a m = In-perm q a (In-perm p a m)

pub Distinct-perm : {xs ys : List Bytes} → Permᴰ xs ys → Distinct ys → Distinct xs
Distinct-perm Permᴰ.nil d = d
Distinct-perm (Permᴰ.cons {a} {b} {l₁} {l₂} e p) (fresh, d) =
    ((λ m. fresh (subst (λ x. In x l₂) e (In-perm p a m))), Distinct-perm p d)
Distinct-perm (Permᴰ.swap {a} {b} {a'} {b'} {l} e f) (fresh, rest) =
    let (fresh', d) = rest in
    (
      (λ m. elim m [
        | inl h ↦ fresh (inl (sym f ∙ sym h ∙ e))
        | inr h ↦ fresh' (subst (λ x. In x l) e h)
      ]),
      ((λ m. fresh (inr (subst (λ x. In x l) f m))), d),
    )
Distinct-perm (Permᴰ.trans p q) d = Distinct-perm p (Distinct-perm q d)
