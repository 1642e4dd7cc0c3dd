-- ===== src/Http/Health/Going.antt =====
-- How far the goroutines of health.go are, and that they can go on while their checks return.
use mascotapp.Base.{
  ℕ, ◌+◌, ◌≤◌, ◌<◌, ◌≡◌, ◌≢◌, ◌⊎◌, inl, inr, refl, sym, subst, List, [], ◌∷◌, ◌++◌, Bytes, length,
  suc, ◌*◌, All, arith, append-nil, append_assoc,
}
use mascotapp.Http.Health.{
  CheckResult, healthy, unhealthy, hangs, ReadinessCheck, Progress, checking, appending, finished,
  Goroutine, Readiness, launch, at, Step, passes, fails, appends, Steps, here, next, AllFinished,
}

-- The steps that a goroutine has still to take, at most.
abbrev pub work_at : Progress → ℕ
work_at checking = 2
work_at appending = 1
work_at finished = 0

abbrev pub work : List Goroutine → ℕ
work [] = 0
work (g ∷ gs) = work_at g.progress + work gs

work-append : (gs hs : List Goroutine) → work (gs ++ hs) ≡ work gs + work hs
work-append [] hs = omega arith
work-append (g ∷ gs) hs = omega (arith, work-append gs hs)

Step-work : {s t : Readiness} → Step s t → work t.goroutines < work s.goroutines
Step-work (passes before after c failed e) =
    omega (
      arith,
      work-append before (at c finished ∷ after),
      work-append before (at c checking ∷ after),
    )
Step-work (fails before after c failed e h) =
    omega (
      arith,
      work-append before (at c appending ∷ after),
      work-append before (at c checking ∷ after),
    )
Step-work (appends before after c failed) =
    omega (
      arith,
      work-append before (at c finished ∷ after),
      work-append before (at c appending ∷ after),
    )

abbrev pub steps_taken : {s t : Readiness} → Steps s t → ℕ
steps_taken here = 0
steps_taken (next r st) = suc (steps_taken r)

pub Steps-work :
    {s t : Readiness} (r : Steps s t) → steps_taken r + work t.goroutines ≤ work s.goroutines
Steps-work here = omega arith
Steps-work (next r st) = omega (arith, Steps-work r, Step-work st)

pub work-launch : (cs : List ReadinessCheck) → work (launch cs).goroutines ≡ 2 * length cs
unfolding launch
work-launch [] = omega arith
work-launch (c ∷ cs) = omega (arith, work-launch cs)

-- The check heeds its context.
abbrev pub Returns : ReadinessCheck → Type 0
Returns c = c.result ≢ hangs

abbrev pub AllReturn : List Goroutine → Type 0
AllReturn = All (λ g. Returns g.check)

-- A goroutine that waits for a check which never returns is in that check.
abbrev pub IsStuck : Goroutine → Type 0
IsStuck g = g.check.result ≡ hangs → g.progress ≡ checking

module _ (P : Goroutine → Type 0) where
  All-replace :
      (before after : List Goroutine) (g h : Goroutine)
      → (P g → P h)
      → All P (before ++ g ∷ after)
      → All P (before ++ h ∷ after)
  All-replace [] after g h f (p, ps) = (f p, ps)
  All-replace (b ∷ before) after g h f (p, ps) = (p, All-replace before after g h f ps)

pub Step-AllReturn : {s t : Readiness} → Step s t → AllReturn s.goroutines → AllReturn t.goroutines
Step-AllReturn (passes before after c failed e) =
    All-replace _ before after (at c checking) (at c finished) (λ p. p)
Step-AllReturn (fails before after c failed e h) =
    All-replace _ before after (at c checking) (at c appending) (λ p. p)
Step-AllReturn (appends before after c failed) =
    All-replace _ before after (at c appending) (at c finished) (λ p. p)

pub Step-AllReturn_back :
    {s t : Readiness} → Step s t → AllReturn t.goroutines → AllReturn s.goroutines
Step-AllReturn_back (passes before after c failed e) =
    All-replace _ before after (at c finished) (at c checking) (λ p. p)
Step-AllReturn_back (fails before after c failed e h) =
    All-replace _ before after (at c appending) (at c checking) (λ p. p)
Step-AllReturn_back (appends before after c failed) =
    All-replace _ before after (at c finished) (at c appending) (λ p. p)

pub Step-IsStuck :
    {s t : Readiness} → Step s t → All IsStuck s.goroutines → All IsStuck t.goroutines
Step-IsStuck (passes before after c failed e) =
    All-replace IsStuck before after (at c checking) (at c finished) (λ p h. cc)
Step-IsStuck (fails before after c failed e h) =
    All-replace IsStuck before after (at c checking) (at c appending) (λ p k. cc)
Step-IsStuck (appends before after c failed) =
    All-replace IsStuck before after (at c appending) (at c finished) (λ p h. cc (p h))

pub result_cases :
    (r : CheckResult) → (r ≡ healthy) ⊎ (((e : Bytes) × (r ≡ unhealthy e)) ⊎ (r ≡ hangs))
result_cases healthy = inl refl
result_cases (unhealthy e) = inr (inl (e, refl))
result_cases hangs = inr (inr refl)

AllFinished-snoc :
    (gs : List Goroutine) (c : ReadinessCheck)
    → AllFinished gs
    → AllFinished (gs ++ at c finished ∷ [])
AllFinished-snoc [] c h = (refl, tt)
AllFinished-snoc (g ∷ gs) c (e, h) = (e, AllFinished-snoc gs c h)

module _ (P : Goroutine → Type 0)
    (keep : (u v : Readiness) → Step u v → All P u.goroutines → All P v.goroutines) where
  pub Steps-All : {s t : Readiness} → Steps s t → All P s.goroutines → All P t.goroutines
  Steps-All here h = h
  Steps-All (next r st) h = keep _ _ st (Steps-All r h)

Steps-trans : {s t u : Readiness} → Steps s t → Steps t u → Steps s u
Steps-trans r here = r
Steps-trans r (next q st) = next (Steps-trans r q) st

-- A goroutine whose check returns can go on to its end, whatever the others do.
advance :
    (before after : List Goroutine) (c : ReadinessCheck) (p : Progress) (failed : List Bytes)
    → Returns c
    → (failed' : List Bytes) × Steps
        (record { goroutines = before ++ at c p ∷ after; failed = failed })
        (record { goroutines = before ++ at c finished ∷ after; failed = failed' })
advance before after c finished failed h = (failed, here)
advance before after c appending failed h =
    (failed ++ c.name ∷ [], next here (appends before after c failed))
advance before after c checking failed h = elim (result_cases c.result) [
  | inl fine ↦ (failed, next here (passes before after c failed fine))
  | inr other ↦ elim other [
    | inl (e, bad) ↦ (
      failed ++ c.name ∷ [],
      next (next here (fails before after c failed e bad)) (appends before after c failed),
    )
    | inr never ↦ absurd (h never)
  ]
]

pub finish :
    (before after : List Goroutine) (failed : List Bytes)
    → AllFinished before
    → AllReturn after
    → (t : Readiness) × Steps (record { goroutines = before ++ after; failed = failed }) t
      × AllFinished t.goroutines
finish before [] failed done h = (
  record { goroutines = before ++ []; failed = failed },
  here,
  subst AllFinished (sym (append-nil before)) done,
)
finish before (g ∷ gs) failed done (r, h) =
    let (failed', go) = advance before gs g.check g.progress failed r in
    let (t, rest, over) =
      finish (before ++ at g.check finished ∷ []) gs failed' (AllFinished-snoc before g.check done)
        h in
    let joined =
      subst (λ l. Steps (record { goroutines = l; failed = failed' }) t)
        (append_assoc before (at g.check finished ∷ []) gs) rest in
    (t, Steps-trans go joined, over)

pub launch-AllReturn :
    (cs : List ReadinessCheck) → All Returns cs → AllReturn (launch cs).goroutines
unfolding launch
launch-AllReturn [] h = tt
launch-AllReturn (c ∷ cs) (r, h) = (r, launch-AllReturn cs h)

pub launch-IsStuck : (cs : List ReadinessCheck) → All IsStuck (launch cs).goroutines
unfolding launch
launch-IsStuck [] = tt
launch-IsStuck (c ∷ cs) = ((λ e. refl), launch-IsStuck cs)
