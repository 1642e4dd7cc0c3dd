-- ===== src/Scripts/Engram/Grouped.antt =====
-- The sections of engram-index.go, one for each namespace.
use mathlib.Core.List.{Permᴰ}
use mathlib.Core.List.Permᴰ
use mascotapp.Base.{
  ◌≡◌, ◌⊎◌, inl, inr, refl, ap, sym, ◌∙◌, subst, List, [], ◌∷◌, ◌++◌, map, append_assoc, Bytes, All,
  All-append, ◌=ᵇ◌, =ᵇ_iff, Bool-cases, arith,
}
use mascotapp.Base.Members.{In, Distinct}
use mascotapp.Base.Sorting.{sort_by, sort_by-perm}
use mascotapp.Base.Perms.{All-perm, append-perm, append_swap}
use mascotapp.Scripts.Engram.{Entry}
use mascotapp.Scripts.Engram.Index.{
  saved, state_of, namespace_of, append_at, by_namespace, row_first,
}

-- The rows of all groups.
abbrev pub all_rows : List (Bytes × List Entry) → List Entry
all_rows [] = []
all_rows (group ∷ groups) = group.1 ++ all_rows groups

pub all_rows-perm :
    {gs hs : List (Bytes × List Entry)} → Permᴰ gs hs → Permᴰ (all_rows gs) (all_rows hs)
all_rows-perm Permᴰ.nil = Permᴰ.nil
all_rows-perm (Permᴰ.cons {a} {b} {l₁} {l₂} e p) =
    subst (λ g. Permᴰ (a.1 ++ all_rows l₁) (g.1 ++ all_rows l₂)) e
      (Permᴰ.append_left a.1 (all_rows-perm p))
all_rows-perm (Permᴰ.swap {a} {b} {a'} {b'} {l} e f) =
    subst (λ g. Permᴰ (a.1 ++ (b.1 ++ all_rows l)) (g.1 ++ (b'.1 ++ all_rows l))) f
      (subst (λ g. Permᴰ (a.1 ++ (b.1 ++ all_rows l)) (b.1 ++ (g.1 ++ all_rows l))) e
        (append_swap a.1 b.1 (all_rows l)))
all_rows-perm (Permᴰ.trans p q) = Permᴰ.trans (all_rows-perm p) (all_rows-perm q)

append_at-perm :
    (key : Bytes) (e : Entry) (groups : List (Bytes × List Entry))
    → Permᴰ (all_rows (append_at key e groups)) (e ∷ all_rows groups)
unfolding append_at
append_at-perm key e [] = Permᴰ.refl (e ∷ [])
append_at-perm key e ((k, group) ∷ groups) = elim (Bool-cases (k =ᵇ key)) [
  | inl same ↦ rw same (
      subst (λ l. Permᴰ l (e ∷ group ++ all_rows groups))
        (sym (append_assoc group (e ∷ []) (all_rows groups)))
        (Permᴰ.middle e group (all_rows groups)))
  | inr other ↦ rw other (
      Permᴰ.trans (Permᴰ.append_left group (append_at-perm key e groups))
        (Permᴰ.middle e group (all_rows groups)))
]

pub by_namespace-perm :
    (groups : List (Bytes × List Entry)) (entries : List Entry)
    → Permᴰ (all_rows (by_namespace groups entries)) (all_rows groups ++ entries)
unfolding by_namespace
by_namespace-perm groups [] = Permᴰ.symm (Permᴰ.append-nil (all_rows groups))
by_namespace-perm groups (e ∷ entries) =
    Permᴰ.trans (by_namespace-perm (append_at (namespace_of e) e groups) entries) (
      Permᴰ.trans (Permᴰ.append_right entries (append_at-perm (namespace_of e) e groups))
        (Permᴰ.symm (Permᴰ.middle e (all_rows groups) entries)))

-- The groups with their rows sorted.
abbrev pub in_order : List (Bytes × List Entry) → List (Bytes × List Entry)
in_order groups = map (λ group. (group.0, sort_by row_first group.1)) groups

pub in_order-perm :
    (groups : List (Bytes × List Entry)) → Permᴰ (all_rows (in_order groups)) (all_rows groups)
in_order-perm [] = Permᴰ.nil
in_order-perm (group ∷ groups) = append-perm (sort_by-perm row_first group.1) (in_order-perm groups)

abbrev pub IsGroup : Bytes × List Entry → Type 0
IsGroup group = All (λ e. (state_of e ≡ saved) × (namespace_of e ≡ group.0)) group.1

append_at-IsGroup :
    (key : Bytes) (e : Entry) (groups : List (Bytes × List Entry))
    → state_of e ≡ saved
    → namespace_of e ≡ key
    → All IsGroup groups
    → All IsGroup (append_at key e groups)
unfolding append_at
append_at-IsGroup key e [] kept own h = (((kept, own), tt), tt)
append_at-IsGroup key e ((k, group) ∷ groups) kept own (p, h) = elim (Bool-cases (k =ᵇ key)) [
  | inl same ↦ rw same (
    All-append (λ f. (state_of f ≡ saved) × (namespace_of f ≡ k)) group (e ∷ []) p
        ((kept, own ∙ sym ((=ᵇ_iff k key).0 same)), tt),
    h,
  )
  | inr other ↦ rw other (p, append_at-IsGroup key e groups kept own h)
]

pub by_namespace-IsGroup :
    (groups : List (Bytes × List Entry)) (entries : List Entry)
    → All IsGroup groups
    → All (λ e. state_of e ≡ saved) entries
    → All IsGroup (by_namespace groups entries)
unfolding by_namespace
by_namespace-IsGroup groups [] h k = h
by_namespace-IsGroup groups (e ∷ entries) h (kept, k) =
    by_namespace-IsGroup (append_at (namespace_of e) e groups) entries
      (append_at-IsGroup (namespace_of e) e groups kept refl h) k

pub in_order-IsGroup :
    (groups : List (Bytes × List Entry)) → All IsGroup groups → All IsGroup (in_order groups)
in_order-IsGroup [] h = tt
in_order-IsGroup (group ∷ groups) (p, h) =
    (All-perm _ (sort_by-perm row_first group.1) p, in_order-IsGroup groups h)

abbrev pub names : List (Bytes × List Entry) → List Bytes
names groups = map (λ group. group.0) groups

append_at-In :
    (key : Bytes) (e : Entry) (groups : List (Bytes × List Entry)) (a : Bytes)
    → In a (names (append_at key e groups))
    → (a ≡ key) ⊎ In a (names groups)
unfolding append_at
append_at-In key e [] a = λ m. elim m [ inl h ↦ inl h | inr h ↦ absurd h ]
append_at-In key e ((k, group) ∷ groups) a = elim (Bool-cases (k =ᵇ key)) [
  | inl same ↦ rw same (λ m. inr m)
  | inr other ↦ rw other (λ m. elim m [
    | inl h ↦ inr (inl h)
    | inr n ↦ elim (append_at-In key e groups a n) [ inl h ↦ inl h | inr h ↦ inr (inr h) ]
  ])
]

append_at-Distinct :
    (key : Bytes) (e : Entry) (groups : List (Bytes × List Entry))
    → Distinct (names groups)
    → Distinct (names (append_at key e groups))
unfolding append_at
append_at-Distinct key e [] = λ d. ((λ m. absurd m), tt)
append_at-Distinct key e ((k, group) ∷ groups) = elim (Bool-cases (k =ᵇ key)) [
  | inl same ↦ rw same (λ d. d)
  | inr other ↦ rw other (λ d. (
    (λ m. elim (append_at-In key e groups k m) [
      | inl h ↦ ground (arith, other, (=ᵇ_iff k key).1 h)
      | inr n ↦ d.0 n
    ]),
    append_at-Distinct key e groups d.1,
  ))
]

pub by_namespace-Distinct :
    (groups : List (Bytes × List Entry)) (entries : List Entry)
    → Distinct (names groups)
    → Distinct (names (by_namespace groups entries))
unfolding by_namespace
by_namespace-Distinct groups [] d = d
by_namespace-Distinct groups (e ∷ entries) d =
    by_namespace-Distinct (append_at (namespace_of e) e groups) entries
      (append_at-Distinct (namespace_of e) e groups d)

pub in_order-names : (groups : List (Bytes × List Entry)) → names (in_order groups) ≡ names groups
in_order-names [] = refl
in_order-names (group ∷ groups) = ap (λ l. group.0 ∷ l) (in_order-names groups)
