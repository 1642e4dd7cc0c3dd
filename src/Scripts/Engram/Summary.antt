-- ===== src/Scripts/Engram/Summary.antt =====
-- What summarize of engram-index.go puts in a cell of the table.
use mascotapp.Base.{
  ℕ, ◌≤◌, ◌≡◌, ◌≢◌, inl, inr, refl, Bool, true, false, not, List, [], ◌∷◌, Bytes, ◌==◌, leb, All,
  All-append, length, length-append, length-take, take, split, trim_space, if◌then◌else◌,
  Bool-cases, arith,
}
use mascotapp.Scripts.Text.{trim_right_of, is_white, collapse, is_trailing}
use mascotapp.Scripts.Kept.{
  trim_right_of-All, trim_right_of-le, trim_space-All, collapse-All, take-All,
}
use mascotapp.Scripts.Engram.{
  dash, cell_char, replaced, paragraph_from, join_spaces, shorten, summarize,
}

-- A character that is no bar and no backquote.
abbrev Plain : ℕ → Type 0
Plain c = (c ≢ b'|') × (c ≢ b'`')

-- One that neither ends the cell nor the row, nor opens code.
abbrev pub InCell : ℕ → Type 0
InCell c = (c ≢ b'|') × (c ≢ b'`') × (c ≢ 10) × (c ≢ 13)

cell_char-Plain : (held : Bool) (c : ℕ) → All Plain (cell_char held c)
unfolding cell_char
cell_char-Plain held c =
    All-append Plain (if held then b'*' ∷ [] else []) _ (star held)
      (kept (c == b'|') (c == b'`') refl refl)
  where
    star : (b : Bool) → All Plain (if b then b'*' ∷ [] else [])
    star true = (((λ e. omega arith), (λ e. omega arith)), tt)
    star false = tt

    kept :
        (b d : Bool)
        → (c == b'|') ≡ b
        → (c == b'`') ≡ d
        → All Plain (if b then b'/' ∷ [] else if d then [] else c ∷ [])
    kept true d h k = (((λ e. omega arith), (λ e. omega arith)), tt)
    kept false true h k = tt
    kept false false h k = (((λ e. ground arith), (λ e. ground arith)), tt)

replaced-Plain : (held : Bool) (s : Bytes) → All Plain (replaced held s)
unfolding replaced
replaced-Plain true [] = (((λ e. omega arith), (λ e. omega arith)), tt)
replaced-Plain false [] = tt
replaced-Plain held (c ∷ s) = elim (Bool-cases (c == b'*')) [
  | inl star ↦ rw star (replaced-Plain (not held) s)
  | inr other ↦
      rw other
        (All-append Plain (cell_char held c) _ (cell_char-Plain held c) (replaced-Plain false s))
]

Plain-InCell : (s : Bytes) → All Plain s → All (λ c. is_white c ≡ false → InCell c) s
unfolding is_white
Plain-InCell [] h = tt
Plain-InCell (c ∷ s) (p, h) =
    ((λ w. (p.0, p.1, (λ e. ground (arith, e, w)), (λ e. ground (arith, e, w)))), Plain-InCell s h)

shorten-InCell : (joined : Bytes) → All InCell (shorten joined) × (length (shorten joined) ≤ 130)
unfolding shorten
shorten-InCell joined =
    let flat = collapse false (replaced false joined) in
    let text = trim_space flat in
    let blank : InCell 32 =
      ((λ e. omega arith), (λ e. omega arith), (λ e. omega arith), (λ e. omega arith)) in
    let clean = trim_space-All InCell flat (
      collapse-All InCell blank false (replaced false joined)
        (Plain-InCell _ (replaced-Plain false joined))) in
    let cut = trim_right_of is_trailing (take 129 text) in
    elim (Bool-cases (leb (length text) 130)) [
      | inl short ↦ rw short (clean, ground (arith, short))
      | inr long ↦ rw long (
        All-append InCell cut (8230 ∷ [])
            (trim_right_of-All InCell is_trailing (take 129 text) (take-All InCell 129 text clean))
            (((λ e. omega arith), (λ e. omega arith), (λ e. omega arith), (λ e. omega arith)), tt),
        omega (
          arith,
          length-append cut (8230 ∷ []),
          trim_right_of-le is_trailing (take 129 text),
          length-take 129 text,
        ),
      )
    ]

-- The summary of every body fits one cell of the table: it has at most 130 characters, and none of
-- them is a bar, a backquote or the end of a line.
pub summarize-InCell :
    (body : Bytes) → All InCell (summarize body) × (length (summarize body) ≤ 130)
unfolding summarize
summarize-InCell body = shown (paragraph_from [] (split 10 body))
  where
    shown :
        (paragraph : List Bytes)
        → All InCell (elim paragraph [ [] ↦ dash | l ∷ ls ↦ shorten (join_spaces (l ∷ ls)) ])
          × (length (elim paragraph as (λ _. Bytes) [
            | [] ↦ dash
            | l ∷ ls ↦ shorten (join_spaces (l ∷ ls))
          ])
              ≤ 130)
    shown [] = (
      (((λ e. omega arith), (λ e. omega arith), (λ e. omega arith), (λ e. omega arith)), tt),
      omega arith,
    )
    shown (l ∷ ls) = shorten-InCell (join_spaces (l ∷ ls))
