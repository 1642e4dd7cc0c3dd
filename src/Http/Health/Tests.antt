-- ===== src/Http/Health/Tests.antt =====
-- A readiness probe of two failing checks that append in the other order.
use mascotapp.Base.{◌*◌, ◌≤◌, ◌≡◌, ◌↔◌, refl, List, [], ◌∷◌, some, codes, All, length}
use mascotapp.Base.Sorting.{sort_strings, not_after}
use mascotapp.Http.Health.{
  unhealthy, ReadinessCheck, checking, appending, finished, Readiness, launch, at, fails, appends,
  Steps, here, next, AllFinished, respond,
}
use mascotapp.Http.Health.Owed.{failing}
use mascotapp.Http.Health.Going.{Returns, steps_taken}
use mascotapp.Http.Health.Ready.{IsHealthy, readiness_answer, readiness_terminates}

abbrev store : ReadinessCheck
store = record { name = codes "r2"; result = unhealthy (codes "timeout") }

abbrev database : ReadinessCheck
database = record { name = codes "postgres"; result = unhealthy (codes "suspended") }

abbrev both : List ReadinessCheck
both = store ∷ database ∷ []

abbrev over : Readiness
over = record {
  goroutines = at store finished ∷ at database finished ∷ [];
  failed = codes "postgres" ∷ codes "r2" ∷ [];
}

run : Steps (launch both) over
unfolding launch
run =
    next
      (next
        (next (next here (fails [] (at database checking ∷ []) store [] (codes "timeout") refl))
          (fails (at store appending ∷ []) [] database [] (codes "suspended") refl))
        (appends (at store appending ∷ []) [] database []))
      (appends [] (at database finished ∷ []) store (codes "postgres" ∷ []))

not_ready : respond over.failed ≡ record {
  code = 503;
  status = codes "not ready";
  failures = some (codes "postgres" ∷ codes "r2" ∷ []);
}
unfolding respond sort_strings not_after
not_ready = refl

readiness_answer_example :
    (respond over.failed ≡ respond (failing both))
    × (((respond over.failed).code ≡ 200) ↔ All IsHealthy both)
    × All Returns both
readiness_answer_example = readiness_answer both over run (refl, (refl, tt))

readiness_terminates_example :
    (steps_taken run ≤ 2 * length both)
    × ((t : Readiness) × Steps over t × AllFinished t.goroutines)
readiness_terminates_example = readiness_terminates both over run ((λ e. cc e), ((λ e. cc e), tt))
