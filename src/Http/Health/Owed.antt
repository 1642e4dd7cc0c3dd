-- ===== src/Http/Health/Owed.antt =====
-- The names that the goroutines of health.go have appended and those that they owe: what the handler
-- answers in the end does not depend on the order of the steps.
use mathlib.Core.List.{Permᴰ}
use mathlib.Core.List.Permᴰ
use mascotapp.Base.{
  ◌≡◌, refl, ap, sym, subst, ◌∙◌, List, [], ◌∷◌, ◌++◌, some, Bytes, codes, append-nil, append_assoc,
}
use mascotapp.Base.Sorting.{sort_strings, sort_strings-perm, sort_strings-nil}
use mascotapp.Http.Health.{
  CheckResult, healthy, unhealthy, hangs, ReadinessCheck, Progress, checking, appending, finished,
  Goroutine, Readiness, launch, at, Step, passes, fails, appends, Steps, here, next, AllFinished,
  respond,
}

abbrev pub failing_name : Bytes → CheckResult → List Bytes
failing_name name healthy = []
failing_name name (unhealthy e) = name ∷ []
failing_name name hangs = []

-- The names of the checks that fail, in the order of the checks.
abbrev pub failing : List ReadinessCheck → List Bytes
failing [] = []
failing (c ∷ cs) = failing_name c.name c.result ++ failing cs

abbrev owed_at : ReadinessCheck → Progress → List Bytes
owed_at c checking = failing_name c.name c.result
owed_at c appending = c.name ∷ []
owed_at c finished = []

-- The names that the goroutines have still to append.
abbrev owed : List Goroutine → List Bytes
owed [] = []
owed (g ∷ gs) = owed_at g.check g.progress ++ owed gs

owed-append : (gs hs : List Goroutine) → owed (gs ++ hs) ≡ owed gs ++ owed hs
owed-append [] hs = refl
owed-append (g ∷ gs) hs =
    ap (λ l. owed_at g.check g.progress ++ l) (owed-append gs hs)
    ∙ sym (append_assoc (owed_at g.check g.progress) (owed gs) (owed hs))

owed-launch : (cs : List ReadinessCheck) → owed (launch cs).goroutines ≡ failing cs
unfolding launch
owed-launch [] = refl
owed-launch (c ∷ cs) = ap (λ l. failing_name c.name c.result ++ l) (owed-launch cs)

owed-finished : (gs : List Goroutine) → AllFinished gs → owed gs ≡ []
owed-finished [] h = refl
owed-finished (g ∷ gs) (e, h) = rw (e, owed-finished gs h)

-- The names that are there and those that are owed.
abbrev all_failed : Readiness → List Bytes
all_failed s = s.failed ++ owed s.goroutines

swap_owed :
    (before after : List Goroutine) (g h : Goroutine) (failed : List Bytes)
    → owed_at g.check g.progress ≡ owed_at h.check h.progress
    → failed ++ owed (before ++ g ∷ after) ≡ failed ++ owed (before ++ h ∷ after)
swap_owed before after g h failed e =
    ap (λ l. failed ++ l)
      (owed-append before (g ∷ after)
        ∙ ap (λ l. owed before ++ (l ++ owed after)) e
        ∙ sym (owed-append before (h ∷ after)))

appended :
    (before after : List Goroutine) (c : ReadinessCheck) (failed : List Bytes)
    → Permᴰ
        ((failed ++ c.name ∷ []) ++ owed (before ++ at c finished ∷ after))
        (failed ++ owed (before ++ at c appending ∷ after))
appended before after c failed =
    subst (λ l. Permᴰ l (failed ++ owed (before ++ at c appending ∷ after)))
      (sym (append_assoc failed (c.name ∷ []) (owed (before ++ at c finished ∷ after))))
      (Permᴰ.append_left failed (
        subst (λ l. Permᴰ (c.name ∷ l) (owed (before ++ at c appending ∷ after)))
          (sym (owed-append before (at c finished ∷ after)))
          (subst (λ l. Permᴰ (c.name ∷ (owed before ++ owed after)) l)
            (sym (owed-append before (at c appending ∷ after)))
            (Permᴰ.symm (Permᴰ.middle c.name (owed before) (owed after))))))

Permᴰ-of_eq : {xs ys : List Bytes} → xs ≡ ys → Permᴰ xs ys
Permᴰ-of_eq {xs} e = subst (Permᴰ xs) e (Permᴰ.refl xs)

Step-all_failed : {s t : Readiness} → Step s t → Permᴰ (all_failed t) (all_failed s)
Step-all_failed (passes before after c failed e) =
    Permᴰ-of_eq (swap_owed before after (at c finished) (at c checking) failed (rw e))
Step-all_failed (fails before after c failed e h) =
    Permᴰ-of_eq (swap_owed before after (at c appending) (at c checking) failed (rw h))
Step-all_failed (appends before after c failed) = appended before after c failed

Steps-all_failed : {s t : Readiness} → Steps s t → Permᴰ (all_failed t) (all_failed s)
Steps-all_failed {s} here = Permᴰ.refl (all_failed s)
Steps-all_failed (next r st) = Permᴰ.trans (Step-all_failed st) (Steps-all_failed r)

perm-nil : {ys : List Bytes} → Permᴰ [] ys → ys ≡ []
unfolding sort_strings
perm-nil {ys} p = sort_strings-nil ys (sym (sort_strings-perm p))

respond-perm : (xs ys : List Bytes) → Permᴰ xs ys → respond xs ≡ respond ys
respond-perm [] ys p = ap respond (sym (perm-nil p))
respond-perm (x ∷ xs) [] p = ap respond (perm-nil (Permᴰ.symm p))
respond-perm (x ∷ xs) (y ∷ ys) p =
    unfold respond in
    ap (λ l. record { code = 503; status = codes "not ready"; failures = some l })
      (sort_strings-perm p)

pub answered :
    (cs : List ReadinessCheck) (t : Readiness)
    → Steps (launch cs) t
    → AllFinished t.goroutines
    → respond t.failed ≡ respond (failing cs)
answered cs t r done =
    let all = Steps-all_failed r in
    let left : all_failed t ≡ t.failed =
      ap (λ l. t.failed ++ l) (owed-finished t.goroutines done) ∙ append-nil t.failed in
    let started : all_failed (launch cs) ≡ failing cs = unfold launch in owed-launch cs in
    respond-perm t.failed (failing cs)
      (subst (Permᴰ t.failed) started (subst (λ l. Permᴰ l (all_failed (launch cs))) left all))
