-- ===== src/Scripts/Doctor/FirstLine.antt =====
-- What firstLine of scripts/doctor.go shows of an output.
use mascotapp.Base.{
  ℕ, ◌≤◌, ◌≡◌, ◌≢◌, ◌⊎◌, inl, inr, refl, ap, sym, subst, ◌∙◌, Bool, true, false, [], ◌∷◌, ◌++◌,
  Bytes, codes, ltb, All, All-append, length, length-append, length-take, is_empty, is_space, take,
  trim_space, trim_left, if◌then◌else◌, Bool-cases, arith,
}
use mathlib.Core.List.{reverse, reverse-cons, reverse-append}
use mascotapp.Scripts.Text.{trim_right_of, is_white, collapse, is_trailing}
use mascotapp.Scripts.Doctor.{before_newline, first_line}
use mascotapp.Scripts.Kept.{
  trim_right_of-All, trim_right_of-le, trim_left-space, trim_left-kept, trim_space-All,
  collapse-kept, collapse-All, take-All,
}

-- A character that stays on the line.
abbrev pub OnLine : ℕ → Type 0
OnLine c = (c ≢ 10) × (c ≢ 13)

not_white-OnLine : (c : ℕ) → is_white c ≡ false → OnLine c
unfolding is_white
not_white-OnLine c h = ((λ e. ground arith), (λ e. ground arith))

space_or_more : (c : ℕ) → is_space c ≡ false → is_white c ≡ false
unfolding is_space is_white
space_or_more c h = ground arith

each_not_white : (s : Bytes) → All (λ c. is_white c ≡ false → OnLine c) s
each_not_white [] = tt
each_not_white (c ∷ s) = (not_white-OnLine c, each_not_white s)

-- A text with something but white space in it.
abbrev Starts : Bytes → Type 0
Starts s = (c : ℕ) × (r : Bytes) × (s ≡ c ∷ r) × (is_space c ≡ false)

trim_left-Starts : (s : Bytes) → (trim_left s ≡ []) ⊎ Starts (trim_left s)
trim_left-Starts [] = unfold trim_left in inl refl
trim_left-Starts (c ∷ s) = elim (Bool-cases (is_space c)) [
  | inl gone ↦
      subst (λ l. (l ≡ []) ⊎ Starts l) (sym (trim_left-space c s gone)) (trim_left-Starts s)
  | inr kept ↦ inr (c, s, trim_left-kept c s kept, kept)
]

trim_left-snoc :
    (s : Bytes) (c : ℕ) → is_space c ≡ false → (r : Bytes) × (trim_left (s ++ c ∷ []) ≡ r ++ c ∷ [])
trim_left-snoc [] c h = ([], trim_left-kept c [] h)
trim_left-snoc (d ∷ s) c h = elim (Bool-cases (is_space d)) [
  | inl gone ↦ let (r, e) = trim_left-snoc s c h in (r, trim_left-space d (s ++ c ∷ []) gone ∙ e)
  | inr kept ↦ (d ∷ s, trim_left-kept d (s ++ c ∷ []) kept)
]

-- Trimming keeps a first character that is no white space.
trim_right-Starts :
    (c : ℕ) (r : Bytes)
    → is_space c ≡ false
    → (r' : Bytes) × (reverse (trim_left (reverse (c ∷ r))) ≡ c ∷ r')
trim_right-Starts c r h =
    let (r', e) = trim_left-snoc (reverse r) c h in
    (
      reverse r',
      ap (λ l. reverse (trim_left l)) (reverse-cons c r)
          ∙ ap reverse e
          ∙ reverse-append r' (c ∷ []),
    )

trim_space-Starts : (s : Bytes) → (trim_space s ≡ []) ⊎ Starts (trim_space s)
unfolding trim_space
trim_space-Starts s = elim (trim_left-Starts s) [
  | inl blank ↦ inl (ap (λ l. reverse (trim_left (reverse l))) blank)
  | inr (c, r, e, kept) ↦
      let (r', f) = trim_right-Starts c r kept in
      inr (c, r', ap (λ l. reverse (trim_left (reverse l))) e ∙ f, kept)
]

Starts-trim_space : (s : Bytes) → Starts s → Starts (trim_space s)
unfolding trim_space
Starts-trim_space s (c, r, e, kept) =
    let (r', f) = trim_right-Starts c r kept in
    (
      c,
      r',
      ap (λ l. reverse (trim_left (reverse (trim_left l)))) e
          ∙ ap (λ l. reverse (trim_left (reverse l))) (trim_left-kept c r kept)
          ∙ f,
      kept,
    )

before_newline-Starts : (s : Bytes) → Starts s → Starts (before_newline s)
unfolding before_newline
before_newline-Starts s (c, r, e, kept) =
    let (a, b) = not_white-OnLine c (space_or_more c kept) in
    (c, before_newline r, ap before_newline e ∙ ground arith, kept)

collapse-Starts : (s : Bytes) → Starts s → Starts (collapse false s)
collapse-Starts s (c, r, e, kept) = (
  c,
  collapse false r,
  ap (collapse false) e ∙ collapse-kept false c r (space_or_more c kept),
  kept,
)

-- The line that firstLine shortens.
abbrev line_of : Bytes → Bytes
line_of out = trim_space (collapse false (before_newline (trim_space out)))

line_of-OnLine : (out : Bytes) → All OnLine (line_of out)
line_of-OnLine out = trim_space-All OnLine _ (
    collapse-All OnLine ((λ e. omega arith), (λ e. omega arith)) false
      (before_newline (trim_space out)) (each_not_white _))

line_of-Starts : (out : Bytes) → (trim_space out ≡ []) ⊎ Starts (line_of out)
line_of-Starts out = elim (trim_space-Starts out) [
  | inl blank ↦ inl blank
  | inr starts ↦ inr (Starts-trim_space _ (collapse-Starts _ (before_newline-Starts _ starts)))
]

abbrev IsShown : Bytes → Type 0
IsShown s = All OnLine s × (length s ≤ 90) × (s ≢ [])

snoc-ne-nil : (s : Bytes) (c : ℕ) → (s ++ c ∷ []) ≢ []
snoc-ne-nil [] c e = ground arith
snoc-ne-nil (x ∷ s) c e = ground arith

no_output : IsShown (codes "(no output)")
no_output = (omega arith, omega arith, (λ e. ground arith))

shown :
    (blank long : Bool) (line : Bytes)
    → (blank ≡ false → Starts line)
    → (long ≡ false → length line ≤ 90)
    → All OnLine line
    → IsShown (
        if blank
        then codes "(no output)"
        else if long
        then trim_right_of is_trailing (take 89 line) ++ 8230 ∷ []
        else line)
shown true long line starts short one = no_output
shown false true line starts short one =
    let cut = trim_right_of is_trailing (take 89 line) in
    (
      All-append OnLine cut (8230 ∷ [])
          (trim_right_of-All OnLine is_trailing (take 89 line) (take-All OnLine 89 line one))
          (((λ e. omega arith), (λ e. omega arith)), tt),
      omega (
        arith,
        length-append cut (8230 ∷ []),
        trim_right_of-le is_trailing (take 89 line),
        length-take 89 line,
      ),
      (λ e. snoc-ne-nil cut 8230 e),
    )
shown false false line starts short one =
    (one, short refl, (λ e. let (c, r, f, kept) = starts refl in ground (arith, e, f)))

-- What is shown of an output is one line, of at most ninety characters and never empty.
pub first_line_bounds :
    (out : Bytes)
    → All OnLine (first_line out) × (length (first_line out) ≤ 90) × (first_line out ≢ [])
unfolding first_line
first_line_bounds out =
    shown (is_empty (trim_space out)) (ltb 90 (length (line_of out))) (line_of out)
      (λ some_text. elim (line_of-Starts out) [
        | inl blank ↦ ground (arith, ap is_empty blank)
        | inr starts ↦ starts
      ])
      (λ short. ground arith) (line_of-OnLine out)
