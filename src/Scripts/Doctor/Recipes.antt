-- ===== src/Scripts/Doctor/Recipes.antt =====
-- What recipeLines of scripts/doctor.go makes of a recipe that is continued over several lines.
use mascotapp.Base.{
  ℕ, ◌≡◌, ◌≢◌, ◌∙◌, refl, ap, false, List, [], ◌∷◌, ◌++◌, Bytes, ◌==◌, All, is_empty, split,
  split-append, append_assoc, arith,
}
use mascotapp.Scripts.Text.{has_prefix, trim_right_of-snoc, strip_last-snoc}
use mascotapp.Scripts.Doctor.{is_blank, join_lines, recipe_lines}

-- A continued recipe: what stands before the backslash of each of its lines, and its last line, which
-- ends in `c`.
abbrev pub written : List Bytes → Bytes → ℕ → List Bytes
written [] final c = (final ++ c ∷ []) ∷ []
written (p ∷ ps) final c = (p ++ 92 ∷ []) ∷ written ps final c

-- The one logical line of it.
abbrev pub joined : List Bytes → Bytes → ℕ → Bytes
joined [] final c = final ++ c ∷ []
joined (p ∷ ps) final c = (p ++ 32 ∷ []) ++ joined ps final c

-- A last character that is neither trimmed nor a backslash.
abbrev pub Ends : ℕ → Type 0
Ends c = (is_blank c ≡ false) × ((c == 92) ≡ false)

join-last :
    (pending final : Bytes) (c : ℕ) (lines : List Bytes)
    → is_empty pending ≡ false
    → Ends c
    → join_lines pending ((final ++ c ∷ []) ∷ lines)
      ≡ (pending ++ (final ++ c ∷ [])) ∷ join_lines [] lines
unfolding join_lines
join-last pending final c lines held ends =
    ground (arith, trim_right_of-snoc is_blank final c ends.0, strip_last-snoc 92 final c)

join-continued :
    (pending p : Bytes) (lines : List Bytes)
    → is_empty pending ≡ false
    → join_lines pending ((p ++ 92 ∷ []) ∷ lines) ≡ join_lines (pending ++ (p ++ 32 ∷ [])) lines
unfolding join_lines
join-continued pending p lines held =
    ground (arith, trim_right_of-snoc is_blank p 92 refl, strip_last-snoc 92 p 92)

join-first :
    (p : Bytes) (lines : List Bytes)
    → join_lines [] ((9 ∷ (p ++ 92 ∷ [])) ∷ lines) ≡ join_lines (9 ∷ (p ++ 32 ∷ [])) lines
unfolding join_lines has_prefix
join-first p lines =
    ground (arith, trim_right_of-snoc is_blank (9 ∷ p) 92 refl, strip_last-snoc 92 (9 ∷ p) 92)

not_empty : (pending p : Bytes) → is_empty pending ≡ false → is_empty (pending ++ p) ≡ false
not_empty [] p h = ground arith
not_empty (x ∷ xs) p h = refl

join-written :
    (pending : Bytes) (ps : List Bytes) (final : Bytes) (c : ℕ) (lines : List Bytes)
    → is_empty pending ≡ false
    → Ends c
    → join_lines pending (written ps final c ++ lines)
      ≡ (pending ++ joined ps final c) ∷ join_lines [] lines
join-written pending [] final c lines held ends = join-last pending final c lines held ends
join-written pending (p ∷ ps) final c lines held ends =
    join-continued pending p (written ps final c ++ lines) held
    ∙ join-written (pending ++ (p ++ 32 ∷ [])) ps final c lines (not_empty pending _ held) ends
    ∙ ap (λ l. l ∷ join_lines [] lines) (append_assoc pending (p ++ 32 ∷ []) (joined ps final c))

-- The lines of a file before the rest of it.
abbrev pub in_file : List Bytes → Bytes → Bytes
in_file [] rest = rest
in_file (l ∷ ls) rest = l ++ 10 ∷ in_file ls rest

abbrev pub OneLine : Bytes → Type 0
OneLine = All (λ c. c ≢ 10)

split-in_file :
    (ls : List Bytes) (rest : Bytes)
    → All OneLine ls
    → split 10 (in_file ls rest) ≡ ls ++ split 10 rest
split-in_file [] rest h = refl
split-in_file (l ∷ ls) rest (one, h) =
    split-append 10 l (in_file ls rest) one ∙ ap (λ r. l ∷ r) (split-in_file ls rest h)

-- A recipe that is written on several lines, each but the last with a backslash at its end, is read as
-- the one line of its parts with a space between them, and the rest of the file is read as before it.
-- Its first line starts with a tab and its last one ends in neither a blank nor a backslash.
pub recipe_lines-continued :
    (p : Bytes) (ps : List Bytes) (final : Bytes) (c : ℕ) (rest : Bytes)
    → All OneLine (written ((9 ∷ p) ∷ ps) final c)
    → Ends c
    → recipe_lines (in_file (written ((9 ∷ p) ∷ ps) final c) rest)
      ≡ joined ((9 ∷ p) ∷ ps) final c ∷ recipe_lines rest
unfolding recipe_lines
recipe_lines-continued p ps final c rest lines ends =
    ap (join_lines []) (split-in_file (written ((9 ∷ p) ∷ ps) final c) rest lines)
    ∙ join-first p (written ps final c ++ split 10 rest)
    ∙ join-written (9 ∷ (p ++ 32 ∷ [])) ps final c (split 10 rest) refl ends
