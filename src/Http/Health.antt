-- ===== src/Http/Health.antt =====
-- apps/api/internal/httpapi/health.go: the readiness handler. It starts a goroutine for each check,
-- waits for all of them, and answers. A state holds the goroutines in the order of the checks, and the
-- slice that they append to under the mutex.
mod Owed
mod Going
pub mod Ready
mod Tests
use mascotapp.Base.{
  ℕ, ◌+◌, ◌≡◌, ◌≢◌, Bool, true, false, List, [], ◌∷◌, ◌++◌, Option, none, some, Bytes, codes, map,
  length,
}
use mascotapp.Base.Sorting.{sort_strings}

-- What the Check of a ReadinessCheck does under the context of this request: it returns nil or an
-- error, or it does not heed the context and never returns.
pub data CheckResult : Type 0 where
  healthy : CheckResult
  unhealthy : Bytes → CheckResult
  hangs : CheckResult

-- ReadinessCheck
pub record ReadinessCheck : Type 0 where
  pub name : Bytes
  pub result : CheckResult

-- Where a goroutine is: in Check, before the append with its error, or past wg.Done.
pub data Progress : Type 0 where
  checking appending finished : Progress

pub record Goroutine : Type 0 where
  pub check : ReadinessCheck
  pub progress : Progress

pub record Readiness : Type 0 where
  pub goroutines : List Goroutine
  pub failed : List Bytes

-- The body that writeJSON encodes: its status, and the failed names, if it has that key.
pub record Answer : Type 0 where
  pub code : ℕ
  pub status : Bytes
  pub failures : Option (List Bytes)

-- The state after the loop that starts the goroutines.
unfoldable pub launch : List ReadinessCheck → Readiness
launch checks = record {
  goroutines = map (λ c. record { check = c; progress = checking }) checks;
  failed = [];
}

abbrev pub at : ReadinessCheck → Progress → Goroutine
at c p = record { check = c; progress = p }

-- One goroutine goes on: its check passes, its check fails, or it appends its name.
pub data Step : Readiness → Readiness → Type 0 where
  passes :
      (before after : List Goroutine) (c : ReadinessCheck) (failed : List Bytes)
      → c.result ≡ healthy
      → Step
          (record { goroutines = before ++ at c checking ∷ after; failed = failed })
          (record { goroutines = before ++ at c finished ∷ after; failed = failed })
  fails :
      (before after : List Goroutine) (c : ReadinessCheck) (failed : List Bytes) (e : Bytes)
      → c.result ≡ unhealthy e
      → Step
          (record { goroutines = before ++ at c checking ∷ after; failed = failed })
          (record { goroutines = before ++ at c appending ∷ after; failed = failed })
  appends :
      (before after : List Goroutine) (c : ReadinessCheck) (failed : List Bytes)
      → Step
          (record { goroutines = before ++ at c appending ∷ after; failed = failed })
          (record { goroutines = before ++ at c finished ∷ after; failed = failed ++ c.name ∷ [] })

pub data Steps (s : Readiness) : Readiness → Type 0 where
  here : Steps s s
  next : {t u : Readiness} → Steps s t → Step t u → Steps s u

abbrev pub AllFinished : List Goroutine → Type 0
AllFinished [] = Unit
AllFinished (g ∷ gs) = (g.progress ≡ finished) × AllFinished gs

-- What the handler writes once wg.Wait returns.
unfoldable pub respond : List Bytes → Answer
respond [] = record { code = 200; status = codes "ready"; failures = none }
respond (name ∷ names) = record {
  code = 503;
  status = codes "not ready";
  failures = some (sort_strings (name ∷ names));
}

-- LivenessHandler
unfoldable pub liveness : Answer
liveness = record { code = 200; status = codes "ok"; failures = none }
