-- ===== src/Db/Hoare.antt =====
-- Invariants of code that runs statements: what holds before a call holds after it, however the
-- call ends.
use mascotapp.Base.{◌≡◌, refl, Bool, true, false, if◌then◌else◌, arith}
use mascotapp.Errors.{Error}
use mascotapp.Db.State.{State, Outcome, ok, err, panicked, M, continue, pure, throw, ◌>>=◌, ◌>>◌}

-- A record, so that a rule is chosen by the code that it is about.
pub record Keeps {A : Type 0} (P : State → Type 0) (m : M A) : Type 0 where
  pub apply : (s : State) → P s → P (m s).1

-- `Q` of the value and the state of a return, `P` of the state of an error or a panic.
abbrev pub After :
    {A : Type 0} → (State → Type 0) → (A → State → Type 0) → Outcome A × State → Type 0
After P Q (ok a, s) = Q a s
After P Q (err e, s) = P s
After P Q (panicked p, s) = P s

module _ {A B : Type 0} (P : State → Type 0) where
  Keeps-continue :
      (f : A → M B) (r : Outcome A × State) → P r.1 → ((a : A) → Keeps P (f a)) → P (continue f r).1
  Keeps-continue f (ok a, s) h k = (k a).apply s h
  Keeps-continue f (err e, s) h k = h
  Keeps-continue f (panicked p, s) h k = h

  pub Keeps->>= :
      (m : M A) (f : A → M B) → Keeps P m → ((a : A) → Keeps P (f a)) → Keeps P (m >>= f)
  Keeps->>= m f h k = record { apply = λ s p. Keeps-continue f (m s) (h.apply s p) k }

  After-continue :
      (Q : A → State → Type 0) (f : A → M B) (r : Outcome A × State)
      → After P Q r
      → ((a : A) (t : State) → Q a t → P (f a t).1)
      → P (continue f r).1
  After-continue Q f (ok a, s) h k = k a s h
  After-continue Q f (err e, s) h k = h
  After-continue Q f (panicked p, s) h k = h

  -- The rule for a bind whose second part relies on the value of the first.
  pub Keeps-bind :
      (Q : A → State → Type 0) (m : M A) (f : A → M B)
      → ((s : State) → P s → After P Q (m s))
      → ((a : A) (t : State) → Q a t → P (f a t).1)
      → Keeps P (m >>= f)
  Keeps-bind Q m f h k = record { apply = λ s p. After-continue Q f (m s) (h s p) k }

module _ {A : Type 0} {P : State → Type 0} where
  pub Keeps-pure : {a : A} → Keeps P (pure a)
  Keeps-pure = record { apply = λ s p. p }

  pub Keeps-throw : {e : Error} → Keeps P (throw {A = A} e)
  Keeps-throw = record { apply = λ s p. p }

  pub Keeps-if : (b : Bool) (m n : M A) → Keeps P m → Keeps P n → Keeps P (if b then m else n)
  Keeps-if true m n h k = h
  Keeps-if false m n h k = k

module _ {B : Type 0} (P : State → Type 0) where
  pub Keeps->> : (m : M (Unit {0})) (n : M B) → Keeps P m → Keeps P n → Keeps P (m >> n)
  Keeps->> m n h k = Keeps->>= P m (λ _. n) h (λ _. k)

continue-ok :
    {A B : Type 0} (k : A → M B) (r : Outcome A × State) (b : B)
    → (continue k r).0 ≡ ok b
    → (a : A) × (r.0 ≡ ok a) × (continue k r ≡ k a r.1)
continue-ok k (ok a, s) b h = (a, refl, refl)
continue-ok k (err e, s) b h = ground arith
continue-ok k (panicked p, s) b h = ground arith

-- A chain that succeeds is its second part, from where the first left the state.
pub bind-ok :
    {A B : Type 0} (m : M A) (k : A → M B) (s : State) (b : B)
    → ((m >>= k) s).0 ≡ ok b
    → (a : A) × ((m s).0 ≡ ok a) × ((m >>= k) s ≡ k a (m s).1)
bind-ok m k s b h = continue-ok k (m s) b h
