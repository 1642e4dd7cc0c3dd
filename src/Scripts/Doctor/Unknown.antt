-- ===== src/Scripts/Doctor/Unknown.antt =====
-- What unknownMakefileTools of scripts/doctor.go reports.
use mascotapp.Base.{
  ◌≡◌, ◌↔◌, ◌⊎◌, inl, inr, refl, ap, sym, ◌∙◌, subst, true, false, ◌||◌, List, [], ◌∷◌, none, some,
  Bytes, Bool-cases, Option-cases, arith,
}
use mascotapp.Base.Members.{
  In, Distinct, Bytes-cases, contains, contains_iff, not-In, contains-false,
}
use mascotapp.Scripts.Text.{has_prefix}
use mascotapp.Scripts.Doctor.{
  command_name, shell, is_excused, unknown_from, all_commands, recipe_lines, unknown_makefile_tools,
}

-- The names that commands run.
abbrev pub names_run : List Bytes → List Bytes
names_run [] = []
names_run (command ∷ commands) = elim (command_name command) [
  | none ↦ names_run commands
  | some name ↦ name ∷ names_run commands
]

-- The result has each name once, and exactly those that are run, not excused and not seen before.
record Reports (known seen names result : List Bytes) : Type 0 where
  once : Distinct result
  exactly : (a : Bytes) → In a result ↔ (In a names × (is_excused known a ≡ false) × (¬ In a seen))

Reports-skip :
    (known seen names result : List Bytes) (x : Bytes)
    → ((is_excused known x ≡ true) ⊎ In x seen)
    → Reports known seen names result
    → Reports known seen (x ∷ names) result
Reports-skip known seen names result x why r = record {
  once = r.once;
  exactly = λ a. (
    (λ m. let (n, own, new) = (r.exactly a).0 m in (inr n, own, new)),
    (λ (n, own, new). elim n [
      | inl e ↦ elim why [
        | inl excused ↦ absurd (ground (arith, ap (is_excused known) e))
        | inr old ↦ absurd (new (subst (λ b. In b seen) (sym e) old))
      ]
      | inr later ↦ (r.exactly a).1 (later, own, new)
    ]),
  );
}

Reports-add :
    (known seen names result : List Bytes) (x : Bytes)
    → is_excused known x ≡ false
    → (¬ In x seen)
    → Reports known (x ∷ seen) names result
    → Reports known seen (x ∷ names) (x ∷ result)
Reports-add known seen names result x own new r = record {
  once = ((λ m. ((r.exactly x).0 m).2 (inl refl)), r.once);
  exactly = λ a. (
    (λ m. elim m [
      | inl e ↦ (inl e, ap (is_excused known) e ∙ own, (λ s. new (subst (λ b. In b seen) e s)))
      | inr n ↦ let (k, o, s) = (r.exactly a).0 n in (inr k, o, (λ q. s (inr q)))
    ]),
    (λ (n, o, s). elim n [
      | inl e ↦ inl e
      | inr later ↦ elim (Bytes-cases a x) [
        | inl e ↦ inl e
        | inr other ↦
            inr ((r.exactly a).1 (later, o, (λ q. elim q [ inl e ↦ other e | inr old ↦ s old ])))
      ]
    ]),
  );
}

-- One turn of the loop.
names_run-some :
    (command x : Bytes) (commands : List Bytes)
    → command_name command ≡ some x
    → names_run (command ∷ commands) ≡ x ∷ names_run commands
names_run-some command x commands h = ground arith

unknown_from-skips :
    (known seen : List Bytes) (command x : Bytes) (commands : List Bytes)
    → command_name command ≡ some x
    → (is_excused known x || contains seen x) ≡ true
    → unknown_from known seen (command ∷ commands) ≡ unknown_from known seen commands
unfolding unknown_from
unknown_from-skips known seen command x commands h k = ground arith

unknown_from-adds :
    (known seen : List Bytes) (command x : Bytes) (commands : List Bytes)
    → command_name command ≡ some x
    → (is_excused known x || contains seen x) ≡ false
    → unknown_from known seen (command ∷ commands) ≡ x ∷ unknown_from known (x ∷ seen) commands
unfolding unknown_from
unknown_from-adds known seen command x commands h k = ground arith

why_skipped :
    (known seen : List Bytes) (x : Bytes)
    → (is_excused known x || contains seen x) ≡ true
    → (is_excused known x ≡ true) ⊎ In x seen
why_skipped known seen x h = elim (Bool-cases (is_excused known x)) [
  | inl excused ↦ inl excused
  | inr own ↦ inr ((contains_iff seen x).0 (ground arith))
]

unknown_from-Reports :
    (known seen commands : List Bytes)
    → Reports known seen (names_run commands) (unknown_from known seen commands)
unknown_from-Reports known seen [] =
    unfold unknown_from in record { once = tt; exactly = λ a. ((λ m. absurd m), (λ h. absurd h.0)) }
unknown_from-Reports known seen (command ∷ commands) = elim (Option-cases (command_name command)) [
  | inl nothing ↦
      let same : unknown_from known seen (command ∷ commands) ≡ unknown_from known seen commands =
        unfold unknown_from in ground arith in
      let fewer : names_run (command ∷ commands) ≡ names_run commands = ground arith in
      subst (λ l. Reports known seen l (unknown_from known seen (command ∷ commands))) (sym fewer)
        (subst (Reports known seen (names_run commands)) (sym same)
          (unknown_from-Reports known seen commands))
  | inr (x, runs) ↦
      let named = names_run-some command x commands runs in
      subst (λ l. Reports known seen l (unknown_from known seen (command ∷ commands))) (sym named)
        (elim (Bool-cases (is_excused known x || contains seen x)) [
          | inl skipped ↦
              subst (Reports known seen (x ∷ names_run commands))
                (sym (unknown_from-skips known seen command x commands runs skipped))
                (Reports-skip known seen (names_run commands) _ x (why_skipped known seen x skipped)
                  (unknown_from-Reports known seen commands))
          | inr new ↦
              subst (Reports known seen (x ∷ names_run commands))
                (sym (unknown_from-adds known seen command x commands runs new))
                (Reports-add known seen (names_run commands) _ x (ground arith)
                  (not-In seen x (ground arith)) (unknown_from-Reports known (x ∷ seen) commands))
        ])
]

-- The names that the recipes of a Makefile run.
abbrev pub names_in : Bytes → List Bytes
names_in content = names_run (all_commands (recipe_lines content))

-- A tool that somebody has to install: no variable, no quoted text, no word of the shell, and not in
-- the manifest.
pub record IsUnlisted (known : List Bytes) (a : Bytes) : Type 0 where
  pub no_variable : has_prefix (b'$' ∷ []) a ≡ false
  pub not_quoted : has_prefix (b'"' ∷ []) a ≡ false
  pub no_shell_word : ¬ In a shell
  pub not_listed : ¬ In a known

is_excused-false :
    (known : List Bytes) (a : Bytes) → (is_excused known a ≡ false) ↔ IsUnlisted known a
unfolding is_excused
is_excused-false known a = (
  (λ h. record {
    no_variable = ground arith;
    not_quoted = ground arith;
    no_shell_word = not-In shell a (ground arith);
    not_listed = not-In known a (ground arith);
  }),
  (λ u. ground (
    arith,
    u.no_variable,
    u.not_quoted,
    contains-false shell a u.no_shell_word,
    contains-false known a u.not_listed,
  )),
)

-- The report has no name twice. It has exactly the names that some command of a recipe runs and that
-- are unlisted: no variable, no quoted text, no word of the shell and not in the manifest.
pub unknown_makefile_tools-exactly :
    (known : List Bytes) (content : Bytes)
    → Distinct (unknown_makefile_tools known (some content))
      × ((a : Bytes)
          → In a (unknown_makefile_tools known (some content))
            ↔ (In a (names_in content) × IsUnlisted known a))
unfolding unknown_makefile_tools
unknown_makefile_tools-exactly known content =
    let r = unknown_from-Reports known [] (all_commands (recipe_lines content)) in
    (
      r.once,
      (λ a. (
        (λ m. let (n, own, new) = (r.exactly a).0 m in (n, (is_excused-false known a).0 own)),
        (λ h. (r.exactly a).1 (h.0, (is_excused-false known a).1 h.1, (λ m. m))),
      )),
    )
