-- ===== src/Auth/Session/Entropy.antt =====
-- crypto/rand and the uuid generators, as streams of the state: what they return is not under the
-- program's control.
use mascotapp.Base.{
  ℕ, zero, suc, ◌%◌, ◌≡◌, refl, ap, Byte, All, length, length-map, length-take, length-append,
  Option, List, [], ◌∷◌, ◌++◌, none, some, Bytes, map, take, replicate, arith,
}
use mascotapp.Errors.{entropy_failed, id_failed}
use mascotapp.Db.State.{State, Outcome, ok, err, panicked, M}

-- n bytes, made of a list of numbers.
unfoldable pub fit : ℕ → List ℕ → Bytes
fit n xs = map (λ x. x % 256) (take n (xs ++ replicate n 0))

drawn : ℕ → State → List (Option Bytes) → Outcome Bytes × State
drawn n s [] = (err entropy_failed, s)
drawn n s (none ∷ later) = (err entropy_failed, record s { draws = later })
drawn n s (some xs ∷ later) = (ok (fit n xs), record s { draws = later })

-- rand.Read into a buffer of n bytes. At the end of the stream it fails.
unfoldable pub draw : ℕ → M Bytes
unfolding drawn
draw n s = drawn n s s.draws

named : State → List (Option Bytes) → Outcome Bytes × State
named s [] = (err id_failed, s)
named s (none ∷ later) = (err id_failed, record s { ids = later })
named s (some id ∷ later) = (ok id, record s { ids = later })

-- uuid.NewV7, which returns an error.
unfoldable pub new_v7 : M Bytes
unfolding named
new_v7 s = named s s.ids

must : State → List (Option Bytes) → Outcome Bytes × State
must s [] = (panicked 0, s)
must s (none ∷ later) = (panicked 0, record s { ids = later })
must s (some id ∷ later) = (ok id, record s { ids = later })

-- uuid.New, which panics.
unfoldable pub new_uuid : M Bytes
unfolding must
new_uuid s = must s s.ids

pub draw-run :
    (n : ℕ) (s : State) (xs : List ℕ) (ds : List (Option Bytes))
    → s.draws ≡ some xs ∷ ds
    → draw n s ≡ (ok (fit n xs), record s { draws = ds })
unfolding draw
draw-run n s xs ds e = ap (drawn n s) e

pub new_v7-run :
    (s : State) (id : Bytes) (is : List (Option Bytes))
    → s.ids ≡ some id ∷ is
    → new_v7 s ≡ (ok id, record s { ids = is })
unfolding new_v7
new_v7-run s id is e = ap (named s) e

drawn-ok :
    (n : ℕ) (s : State) (ds : List (Option Bytes)) (raw : Bytes)
    → (drawn n s ds).0 ≡ ok raw
    → (xs : List ℕ) × (raw ≡ fit n xs)
unfolding drawn
drawn-ok n s [] raw h = ground arith
drawn-ok n s (none ∷ ds) raw h = ground arith
drawn-ok n s (some xs ∷ ds) raw h = (xs, ground arith)

pub draw-ok :
    (n : ℕ) (s : State) (raw : Bytes) → (draw n s).0 ≡ ok raw → (xs : List ℕ) × (raw ≡ fit n xs)
unfolding draw
draw-ok n s raw h = drawn-ok n s s.draws raw h

All-bytes : (xs : List ℕ) → All Byte (map (λ x. x % 256) xs)
All-bytes [] = tt
All-bytes (x ∷ xs) = (omega arith, All-bytes xs)

length-replicate : (n : ℕ) → length (replicate {A = ℕ} n 0) ≡ n
length-replicate zero = refl
length-replicate (suc n) = ap suc (length-replicate n)

pub fit-Byte : (n : ℕ) (xs : List ℕ) → All Byte (fit n xs)
unfolding fit
fit-Byte n xs = All-bytes (take n (xs ++ replicate n 0))

pub length-fit : (n : ℕ) (xs : List ℕ) → length (fit n xs) ≡ n
unfolding fit
length-fit n xs = omega (
  arith,
  length-map (λ x. x % 256) (take n (xs ++ replicate n 0)),
  length-take n (xs ++ replicate n 0),
  length-append xs (replicate n 0),
  length-replicate n,
)
