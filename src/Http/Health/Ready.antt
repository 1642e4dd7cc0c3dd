-- ===== src/Http/Health/Ready.antt =====
-- What the readiness handler of health.go answers, in whatever order its checks return, and when.
use mascotapp.Base.{
  ◌≤◌, ◌≡◌, ◌↔◌, inl, inr, refl, ap, sym, ◌∙◌, List, [], ◌∷◌, Bytes, length, ◌*◌, All, arith,
}
use mascotapp.Http.Health.{
  healthy, ReadinessCheck, Goroutine, Readiness, launch, Steps, here, next, AllFinished, respond,
}
use mascotapp.Http.Health.Owed.{failing, answered}
use mascotapp.Http.Health.Going.{
  steps_taken, Returns, AllReturn, IsStuck, Steps-work, work-launch, Step-AllReturn, Step-IsStuck,
  Steps-All, finish, result_cases, Step-AllReturn_back, launch-AllReturn, launch-IsStuck,
}

abbrev pub IsHealthy : ReadinessCheck → Type 0
IsHealthy c = c.result ≡ healthy

Steps-AllReturn : {s t : Readiness} → Steps s t → AllReturn t.goroutines → AllReturn s.goroutines
Steps-AllReturn here h = h
Steps-AllReturn (next r st) h = Steps-AllReturn r (Step-AllReturn_back st h)

AllReturn-launch : (cs : List ReadinessCheck) → AllReturn (launch cs).goroutines → All Returns cs
unfolding launch
AllReturn-launch [] h = tt
AllReturn-launch (c ∷ cs) (r, h) = (r, AllReturn-launch cs h)

none_stuck : (gs : List Goroutine) → AllFinished gs → All IsStuck gs → AllReturn gs
none_stuck [] done h = tt
none_stuck (g ∷ gs) (e, done) (stuck, h) = ((λ never. cc (stuck never)), none_stuck gs done h)

finished-Returns :
    (cs : List ReadinessCheck) (s : Readiness)
    → Steps (launch cs) s
    → AllFinished s.goroutines
    → All Returns cs
finished-Returns cs s r done =
    let stuck = Steps-All IsStuck (λ u v. Step-IsStuck {s = u} {t = v}) r (launch-IsStuck cs) in
    AllReturn-launch cs (Steps-AllReturn r (none_stuck s.goroutines done stuck))

failing-nil : (cs : List ReadinessCheck) → All Returns cs → (failing cs ≡ []) ↔ All IsHealthy cs
failing-nil [] h = ((λ e. tt), (λ e. refl))
failing-nil (c ∷ cs) (r, h) = elim (result_cases c.result) [
  | inl fine ↦ (
    (λ e. (fine, (failing-nil cs h).0 (ground arith))),
    (λ e. ground (arith, (failing-nil cs h).1 e.1)),
  )
  | inr other ↦ elim other [
    | inl (e, bad) ↦ ((λ k. ground arith), (λ k. ground (arith, k.0)))
    | inr never ↦ absurd (r never)
  ]
]

respond-ready : (names : List Bytes) → ((respond names).code ≡ 200) ↔ (names ≡ [])
unfolding respond
respond-ready [] = ((λ e. refl), (λ e. refl))
respond-ready (n ∷ ns) = ((λ e. ground arith), (λ e. ground arith))

-- Whatever order the checks return and append in, the answer is that of the failing checks in the
-- order of their names, and it is 200 exactly if every check passed. The handler answers only once
-- every check has returned: a check that does not heed its context keeps it from answering.
pub readiness_answer :
    (cs : List ReadinessCheck) (s : Readiness)
    → Steps (launch cs) s
    → AllFinished s.goroutines
    → (respond s.failed ≡ respond (failing cs))
      × (((respond s.failed).code ≡ 200) ↔ All IsHealthy cs)
      × All Returns cs
readiness_answer cs s r done =
    let same = answered cs s r done in
    let none_failed = failing-nil cs (finished-Returns cs s r done) in
    (
      same,
      (
        (λ e. none_failed.0 ((respond-ready (failing cs)).0 (ap (λ a. a.code) (sym same) ∙ e))),
        (λ h. ap (λ a. a.code) same ∙ (respond-ready (failing cs)).1 (none_failed.1 h)),
      ),
      finished-Returns cs s r done,
    )

-- Where every check returns, the handler takes at most two steps for each check, and from whatever
-- state it is in it can go on until all of its goroutines are done.
pub readiness_terminates :
    (cs : List ReadinessCheck) (s : Readiness) (r : Steps (launch cs) s)
    → All Returns cs
    → (steps_taken r ≤ 2 * length cs) × ((t : Readiness) × Steps s t × AllFinished t.goroutines)
readiness_terminates cs s r h =
    let returning =
      Steps-All (λ g. Returns g.check) (λ u v. Step-AllReturn {s = u} {t = v}) r
        (launch-AllReturn cs h) in
    (omega (arith, Steps-work r, work-launch cs), finish [] s.goroutines s.failed tt returning)
