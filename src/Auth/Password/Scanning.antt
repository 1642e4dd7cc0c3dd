-- ===== src/Auth/Password/Scanning.antt =====
-- Numbers that auth/password.go writes, read back.
use mascotapp.Base.{
  ℕ, zero, suc, ◌+◌, ◌-◌, ◌*◌, ◌/◌, ◌%◌, ◌^◌, ◌≤◌, ◌<◌, ◌≡◌, ◌∙◌, refl, sym, ap, true, false, [],
  ◌∷◌, ◌++◌, append_assoc, some, Bytes, ltb, is_space, arith, Bool-cases, inl, inr,
}
use mascotapp.Auth.Password.{shown, skip_space, is_digit, read_run, number_below, scan_uint}

-- The numbers of at most k digits.
abbrev pub cap : ℕ → ℕ
cap zero = 1
cap (suc k) = 10 * cap k

digit_next :
    (m d : ℕ) (rest : Bytes)
    → is_digit d ≡ true
    → read_run m (d ∷ rest) ≡ read_run (m * 10 + (d - b'0')) rest
unfolding read_run
digit_next m d rest h = ground arith

read_run-shown :
    (k n : ℕ) (rest : Bytes) → n < cap k → 1 ≤ k → read_run 0 (shown k n ++ rest) ≡ read_run n rest
unfolding read_run shown
read_run-shown zero n rest h one = ground arith
read_run-shown (suc k) n rest h one = elim (Bool-cases (ltb n 10)) [
  | inl small ↦ ground (arith, small)
  | inr large ↦
      let d = n % 10 + b'0' in
      let opens : shown (suc k) n ++ rest ≡ shown k (n / 10) ++ (d ∷ rest) =
        ground (arith, append_assoc (shown k (n / 10)) (d ∷ []) rest) in
      let value : n / 10 * 10 + (d - b'0') ≡ n = omega arith in
      ap (read_run 0) opens
      ∙ read_run-shown k (n / 10) (d ∷ rest) (ground arith) (ground arith)
      ∙ digit_next (n / 10) d rest (ground arith)
      ∙ ap (λ m. read_run m rest) value
]

-- A text that starts with a digit.
abbrev Starts : Bytes → Type 0
Starts text = (c : ℕ) × (cs : Bytes) × (text ≡ c ∷ cs) × (is_digit c ≡ true)

shown-Starts : (k n : ℕ) (rest : Bytes) → n < cap k → 1 ≤ k → Starts (shown k n ++ rest)
unfolding shown
shown-Starts zero n rest h one = ground arith
shown-Starts (suc k) n rest h one = elim (Bool-cases (ltb n 10)) [
  | inl small ↦ (n + b'0', rest, ground arith, ground arith)
  | inr large ↦
      let before = shown-Starts k (n / 10) ((n % 10 + b'0') ∷ rest) (ground arith) (ground arith) in
      (
        before.0,
        before.1,
        ground (arith, append_assoc (shown k (n / 10)) ((n % 10 + b'0') ∷ []) rest, before.2),
        before.3,
      )
]

-- What follows a number.
abbrev pub Ends : Bytes → Type 0
Ends [] = Unit
Ends (c ∷ cs) = is_digit c ≡ false

read_run-Ends : (n : ℕ) (rest : Bytes) → Ends rest → read_run n rest ≡ (n, rest)
unfolding read_run
read_run-Ends n [] h = refl
read_run-Ends n (c ∷ cs) h = ground arith

number_below-digit :
    (bound c : ℕ) (cs rest : Bytes) (n : ℕ)
    → is_digit c ≡ true
    → read_run 0 (c ∷ cs) ≡ (n, rest)
    → n < bound
    → number_below bound (c ∷ cs) ≡ some (n, rest)
unfolding number_below
number_below-digit bound c cs rest n digit run small = rw (digit, run) (ground arith)

skip_space-digit : (c : ℕ) (cs : Bytes) → is_digit c ≡ true → skip_space (c ∷ cs) ≡ some (c ∷ cs)
unfolding skip_space is_space
skip_space-digit c cs h = ground arith

-- A number that was written is read back, up to what follows it.
pub scan_uint-shown :
    (bits n : ℕ) (rest : Bytes)
    → n < cap 20
    → n < 2 ^ bits
    → Ends rest
    → scan_uint bits (shown 20 n ++ rest) ≡ some (n, rest)
unfolding scan_uint
scan_uint-shown bits n rest small fits ends =
    let (c, cs, is, digit) = shown-Starts 20 n rest small (omega arith) in
    let run : read_run 0 (c ∷ cs) ≡ (n, rest) =
      ap (read_run 0) (sym is)
      ∙ read_run-shown 20 n rest small (omega arith)
      ∙ read_run-Ends n rest ends in
    rw (is, skip_space-digit c cs digit) (number_below-digit (2 ^ bits) c cs rest n digit run fits)
