-- ===== src/Scripts/Engram/Collected.antt =====
-- The notes that main of engram-index.go collects from the files of its two directories.
use mathlib.Core.List.{Permᴰ, map-append}
use mathlib.Core.List.Permᴰ
use mascotapp.Base.{
  ◌≡◌, ◌⊎◌, inl, inr, refl, subst, false, ◌&&◌, Option, List, [], ◌∷◌, ◌++◌, some, Bytes, All,
  All-append, map, append_assoc, sym, ap, ◌∙◌, =ᵇ_refl, ◌=ᵇ◌, Bool-cases, Option-cases, arith,
}
use mascotapp.Base.Results.{Result, pass, fail, Result-cases}
use mascotapp.Base.Sorting.{not_after, sort_by-perm}
use mascotapp.Base.Perms.{append-perm, append_swap, map-perm}
use mascotapp.Scripts.Engram.{Entry, frontmatter, parse}
use mascotapp.Scripts.Engram.Index.{
  Found, Warning, IndexError, vault_prefix, queue_prefix, is_undecided, by_name, collect, notes,
  no_frontmatter, decided_nowhere,
}

-- A note that collect lets through.
abbrev Admitted : Bytes → Entry → Type 0
Admitted prefix e =
    (e.link ≡ prefix ++ e.file) × ((prefix =ᵇ vault_prefix) && is_undecided e ≡ false)

parse-link :
    (prefix base content : Bytes) (e : Entry)
    → parse prefix base content ≡ some e
    → (e.link ≡ prefix ++ e.file) × (e.file ≡ base)
unfolding parse
parse-link prefix base content e h = elim (Option-cases (frontmatter content)) [
  | inl bare ↦ absurd (ground (arith, h))
  | inr (groups, found) ↦ (ground (arith, h), ground (arith, h))
]

-- The name of the file that a warning is about.
abbrev pub warned_of : Warning → Bytes
warned_of (no_frontmatter base) = base
warned_of (decided_nowhere base) = base

-- The names of the files of notes and of warnings.
abbrev pub file_names : List Entry → List Warning → List Bytes
file_names entries warnings = map (λ e. e.file) entries ++ map warned_of warnings

-- Every file is a note or is warned of, once, and the notes bear the prefix of their directory.
abbrev Collected : Bytes → List Found → List Entry → List Warning → Type 0
Collected prefix files entries warnings =
    All (Admitted prefix) entries × Permᴰ (file_names entries warnings) (map (λ f. f.0) files)

warned-perm :
    (base : Bytes) (entries : List Entry) (w : Warning) (warnings : List Warning)
    (names : List Bytes)
    → warned_of w ≡ base
    → Permᴰ (file_names entries warnings) names
    → Permᴰ (file_names entries (w ∷ warnings)) (base ∷ names)
warned-perm base entries w warnings names e p =
    Permᴰ.trans (Permᴰ.middle (warned_of w) (map (λ e. e.file) entries) (map warned_of warnings))
      (Permᴰ.cons e p)

-- The notes of two directories, and the warnings of both.
file_names-append :
    (approved queued : List Entry) (said more : List Warning) {vault queue : List Bytes}
    → Permᴰ (file_names approved said) vault
    → Permᴰ (file_names queued more) queue
    → Permᴰ (file_names (approved ++ queued) (said ++ more)) (vault ++ queue)
file_names-append approved queued said more {vault} {queue} p q =
    let files = λ (es : List Entry). map (λ e. e.file) es in
    let named = λ (ws : List Warning). map warned_of ws in
    subst (λ xs. Permᴰ xs (vault ++ queue))
      (sym (
        ap (λ xs. xs ++ named (said ++ more)) (map-append (λ e. e.file) approved queued)
        ∙ ap (λ xs. (files approved ++ files queued) ++ xs) (map-append warned_of said more)
        ∙ append_assoc (files approved) (files queued) (named said ++ named more)))
      (Permᴰ.trans
        (Permᴰ.append_left (files approved) (append_swap (files queued) (named said) (named more)))
        (subst (λ xs. Permᴰ xs (vault ++ queue))
          (append_assoc (files approved) (named said) (files queued ++ named more))
          (append-perm p q)))

abbrev collected : Result IndexError (List Entry × List Warning) → List Entry × List Warning
collected (pass r) = r
collected (fail e) = ([], [])

collect-Collected :
    (prefix : Bytes) (files : List Found) (entries : List Entry) (warnings : List Warning)
    → collect prefix files ≡ pass (entries, warnings)
    → Collected prefix files entries warnings
unfolding collect
collect-Collected prefix [] entries warnings h =
    subst (λ r. Collected prefix [] (collected r).0 (collected r).1) h (tt, Permᴰ.nil)
collect-Collected prefix ((base, Option.none) ∷ files) entries warnings h =
    absurd (ground (arith, h))
collect-Collected prefix ((base, Option.some content) ∷ files) entries warnings h =
    let whole = λ (r : Result IndexError (List Entry × List Warning)).
      Collected prefix ((base, some content) ∷ files) (collected r).0 (collected r).1 in
    elim (Result-cases (collect prefix files)) [
      | inr (x, failed) ↦ absurd (ground (arith, h))
      | inl ((kept, said), passed) ↦
          let (later, all_there) = collect-Collected prefix files kept said passed in
          elim (Option-cases (parse prefix base content)) [
            | inl bare ↦
                subst whole {x = pass (kept, no_frontmatter base ∷ said)}
                  {y = pass (entries, warnings)} (ground (arith, h))
                  (later, warned-perm base kept (no_frontmatter base) said _ refl all_there)
            | inr (e, read) ↦ elim (Bool-cases ((prefix =ᵇ vault_prefix) && is_undecided e)) [
              | inl astray ↦
                  subst whole {x = pass (kept, decided_nowhere base ∷ said)}
                    {y = pass (entries, warnings)} (ground (arith, h))
                    (later, warned-perm base kept (decided_nowhere base) said _ refl all_there)
              | inr fine ↦
                  subst whole {x = pass (e ∷ kept, said)} {y = pass (entries, warnings)}
                    (ground (arith, h))
                    (
                      (((parse-link prefix base content e read).0, fine), later),
                      Permᴰ.cons (parse-link prefix base content e read).1 all_there,
                    )
            ]
          ]
    ]

-- A note of the index: one of the vault is not undecided.
abbrev pub Note : Entry → Type 0
Note e =
    ((e.link ≡ vault_prefix ++ e.file) × (is_undecided e ≡ false))
    ⊎ (e.link ≡ queue_prefix ++ e.file)

All-imp :
    {P Q : Entry → Type 0} → ((e : Entry) → P e → Q e) → (es : List Entry) → All P es → All Q es
All-imp f [] h = tt
All-imp f (e ∷ es) (p, h) = (f e p, All-imp f es h)

pub notes-Collected :
    (vault queue : List Found) (entries : List Entry) (warnings : List Warning)
    → notes vault queue ≡ pass (entries, warnings)
    → All Note entries
      × Permᴰ (file_names entries warnings) (map (λ f. f.0) vault ++ map (λ f. f.0) queue)
unfolding notes
notes-Collected vault queue entries warnings h =
    elim (Result-cases (collect vault_prefix (by_name vault))) [
      | inr (x, failed) ↦ absurd (ground (arith, h))
      | inl ((approved, said), read) ↦ elim (Result-cases (collect queue_prefix (by_name queue))) [
        | inr (x, failed) ↦ absurd (ground (arith, h))
        | inl ((queued, more), read') ↦
            let (good, counted) =
              collect-Collected vault_prefix (by_name vault) approved said read in
            let (good', counted') =
              collect-Collected queue_prefix (by_name queue) queued more read' in
            subst
              (λ r.
                All Note (collected r).0
                × Permᴰ (file_names (collected r).0 (collected r).1)
                    (map (λ f. f.0) vault ++ map (λ f. f.0) queue))
              {x = pass (approved ++ queued, said ++ more)} {y = pass (entries, warnings)}
              (ground (arith, h))
              (
                All-append Note approved queued
                    (All-imp (λ e a. inl (a.0, ground (arith, a.1, =ᵇ_refl vault_prefix))) approved
                      good)
                    (All-imp (λ e a. inr a.0) queued good'),
                file_names-append approved queued said more
                    (Permᴰ.trans counted
                      (map-perm (λ f. f.0) (sort_by-perm (λ f g. not_after f.0 g.0) vault)))
                    (Permᴰ.trans counted'
                      (map-perm (λ f. f.0) (sort_by-perm (λ f g. not_after f.0 g.0) queue))),
              )
      ]
    ]
