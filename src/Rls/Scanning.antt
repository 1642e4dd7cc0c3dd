-- ===== src/Rls/Scanning.antt =====
-- The loop of Validate that looks for tables classified twice, and the map of the names it has seen.
use mascotapp.Base.{
  ◌≡◌, ◌≢◌, ◌↔◌, ◌⊎◌, inl, inr, refl, List, [], ◌∷◌, ◌++◌, none, some, Bytes, ◌=ᵇ◌, =ᵇ_iff,
  Bool-cases, Option-cases, arith, sym, subst,
}
use mascotapp.Base.Members.{
  In, Distinct, Apart, In-append, Apart-cons, Distinct-append, Distinct-seen,
}
use mascotapp.Rls.{Label, Problem, keys, lookup, scan_set, scan_sets}
use mascotapp.Rls.Rules.{append-eq-nil}

pub lookup-none {ℓ} :
    {V : Type ℓ} (a : Bytes) (m : List (Bytes × V)) → (lookup a m ≡ none) ↔ (¬ In a (keys m))
unfolding lookup
lookup-none a [] = ((λ h n. n), (λ h. refl))
lookup-none a ((k, v) ∷ m) = elim (Bool-cases (k =ᵇ a)) [
  | inl same ↦ ((λ h. ground arith), (λ h. absurd (h (inl (sym ((=ᵇ_iff k a).0 same))))))
  | inr other ↦ (
    (λ h n. elim n [
      | inl e ↦ ground (arith, (=ᵇ_iff k a).1 (sym e))
      | inr later ↦ (lookup-none a m).0 (ground arith) later
    ]),
    (λ h. ground (arith, (lookup-none a m).1 (λ n. h (inr n)))),
  )
]

scan_set-new :
    (label : Label) (x : Bytes) (xs : List Bytes) (seen : List (Bytes × Label))
    → lookup x seen ≡ none
    → scan_set label (x ∷ xs) seen ≡ scan_set label xs ((x, label) ∷ seen)
unfolding scan_set
scan_set-new label x xs seen h = ground arith

scan_set-old :
    (label before : Label) (x : Bytes) (xs : List Bytes) (seen : List (Bytes × Label))
    → lookup x seen ≡ some before
    → ((scan_set label (x ∷ xs) seen).0 ≢ [])
      × ((scan_set label (x ∷ xs) seen).1 ≡ (scan_set label xs seen).1)
unfolding scan_set
scan_set-old label before x xs seen h = ((λ e. ground arith), ground arith)

lookup-some :
    (a : Bytes) (b : Label) (m : List (Bytes × Label)) → lookup a m ≡ some b → In a (keys m)
unfolding lookup
lookup-some a b [] h = ground arith
lookup-some a b ((k, v) ∷ m) h = elim (Bool-cases (k =ᵇ a)) [
  | inl same ↦ inl (sym ((=ᵇ_iff k a).0 same))
  | inr other ↦ inr (lookup-some a b m (ground arith))
]

-- What the loop over one set leaves: no complaint exactly if no name is listed again, and all of
-- the names seen.
abbrev SetScanned : List Bytes → List Bytes → List Problem × List (Bytes × Label) → Type 0
SetScanned names seen (problems, after) =
    ((problems ≡ []) ↔ (Distinct names × Apart names seen))
    × ((a : Bytes) → In a (keys after) ↔ (In a names ⊎ In a seen))

SetScanned-new :
    (x : Bytes) (xs seen : List Bytes) (r : List Problem × List (Bytes × Label))
    → (¬ In x seen)
    → SetScanned xs (x ∷ seen) r
    → SetScanned (x ∷ xs) seen r
SetScanned-new x xs seen (problems, after) new (quiet, names) = (
  (
    (λ h.
        let later = (Distinct-seen x xs seen).0 (quiet.0 h) in
        (later.0, (Apart-cons x xs seen).1 (new, later.1))),
    (λ h. quiet.1 ((Distinct-seen x xs seen).1 (h.0, ((Apart-cons x xs seen).0 h.1).1))),
  ),
  (λ a. (
    (λ m. elim ((names a).0 m) [
      | inl p ↦ inl (inr p)
      | inr q ↦ elim q [ inl e ↦ inl (inl e) | inr s ↦ inr s ]
    ]),
    (λ h.
        (names a).1 (elim h [
          | inl p ↦ elim p [ inl e ↦ inr (inl e) | inr q ↦ inl q ]
          | inr s ↦ inr (inr s)
        ])),
  )),
)

SetScanned-old :
    (x : Bytes) (xs seen : List Bytes) (r r' : List Problem × List (Bytes × Label))
    → In x seen
    → (r'.0 ≢ []) × (r'.1 ≡ r.1)
    → SetScanned xs seen r
    → SetScanned (x ∷ xs) seen r'
SetScanned-old x xs seen (problems, after) (problems', after') old (loud, same) (quiet, names) = (
  ((λ h. absurd (loud h)), (λ h. absurd (h.1 x (inl refl) old))),
  (λ a. (
    (λ m. elim ((names a).0 (subst (λ l. In a (keys l)) same m)) [
      | inl p ↦ inl (inr p)
      | inr s ↦ inr s
    ]),
    (λ h.
        subst (λ l. In a (keys l)) (sym same)
          ((names a).1 (elim h [
            | inl p ↦ elim p [ inl e ↦ inr (subst (λ b. In b seen) (sym e) old) | inr q ↦ inl q ]
            | inr s ↦ inr s
          ]))),
  )),
)

scan_set-SetScanned :
    (label : Label) (names : List Bytes) (seen : List (Bytes × Label))
    → SetScanned names (keys seen) (scan_set label names seen)
scan_set-SetScanned label [] seen =
    unfold scan_set in
    (
      ((λ h. (tt, (λ a m. absurd m))), (λ h. refl)),
      (λ a. ((λ m. inr m), (λ h. elim h [ inl m ↦ absurd m | inr n ↦ n ]))),
    )
scan_set-SetScanned label (x ∷ xs) seen = elim (Option-cases (lookup x seen)) [
  | inl new ↦ subst (SetScanned (x ∷ xs) (keys seen)) (sym (scan_set-new label x xs seen new)) (
      SetScanned-new x xs (keys seen) (scan_set label xs ((x, label) ∷ seen))
        ((lookup-none x seen).0 new) (scan_set-SetScanned label xs ((x, label) ∷ seen)))
  | inr (before, old) ↦
      SetScanned-old x xs (keys seen) (scan_set label xs seen) (scan_set label (x ∷ xs) seen)
        (lookup-some x before seen old) (scan_set-old label before x xs seen old)
        (scan_set-SetScanned label xs seen)
]

abbrev pub all_names : List (Label × List Bytes) → List Bytes
all_names [] = []
all_names ((label, names) ∷ sets) = names ++ all_names sets

pub scan_sets-nil :
    (sets : List (Label × List Bytes)) (seen : List (Bytes × Label))
    → (scan_sets sets seen ≡ []) ↔ (Distinct (all_names sets) × Apart (all_names sets) (keys seen))
unfolding scan_sets
scan_sets-nil [] seen = ((λ h. (tt, (λ a m. absurd m))), (λ h. refl))
scan_sets-nil ((label, names) ∷ sets) seen =
    let (quiet, known) = scan_set-SetScanned label names seen in
    let after = (scan_set label names seen).1 in
    let rest = scan_sets-nil sets after in
    let parts = append-eq-nil (scan_set label names seen).0 (scan_sets sets after) in
    let split = Distinct-append names (all_names sets) in
    (
      (λ h.
          let (first, later) = parts.0 h in
          let (once, fresh) = quiet.0 first in
          let (others, apart) = rest.0 later in
          (
            split.1 (once, others, (λ a m n. apart a n ((known a).1 (inl m)))),
            (λ a m s. elim ((In-append a names (all_names sets)).0 m) [
              | inl p ↦ fresh a p s
              | inr q ↦ apart a q ((known a).1 (inr s))
            ]),
          )),
      (λ h.
          let (once, others, apart) = split.0 h.0 in
          parts.1 (
            quiet.1 (once, (λ a m s. h.1 a ((In-append a names (all_names sets)).1 (inl m)) s)),
            rest.1 (
              others,
              (λ a m s. elim ((known a).0 s) [
                | inl p ↦ apart a p m
                | inr q ↦ h.1 a ((In-append a names (all_names sets)).1 (inr m)) q
              ]),
            ),
          )),
    )
