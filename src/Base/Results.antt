-- ===== src/Base/Results.antt =====
-- A Go function that returns a value or an error, and the chain of such calls.
use native.Mathlib.Omega.{arith}
use mathlib.Core.Path.{◌≡◌, refl}
use mathlib.Core.Logic.{◌⊎◌, inl, inr}
use mathlib.Core.Option.{Option, none, some}

pub data Result (E A : Type 0) : Type 0 where
  pass : A → Result E A
  fail : E → Result E A

infixl 5 ◌>>=◌
abbrev pub ◌>>=◌ : {E A B : Type 0} → Result E A → (A → Result E B) → Result E B
pass a >>= k = k a
fail e >>= k = fail e

abbrev pub or_fail : {E A : Type 0} → Option A → E → Result E A
or_fail none e = fail e
or_fail (some a) e = pass a

pub Result-cases :
    {E A : Type 0} (r : Result E A) → ((a : A) × (r ≡ pass a)) ⊎ ((e : E) × (r ≡ fail e))
Result-cases (pass a) = inl (a, refl)
Result-cases (fail e) = inr (e, refl)

-- A chain that passes is its second part, at what the first passed.
pub bind-pass :
    {E A B : Type 0} (m : Result E A) (k : A → Result E B) (b : B)
    → (m >>= k) ≡ pass b
    → (a : A) × (m ≡ pass a) × (k a ≡ pass b)
bind-pass (pass a) k b h = (a, refl, h)
bind-pass (fail e) k b h = ground arith
