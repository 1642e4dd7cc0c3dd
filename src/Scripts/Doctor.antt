-- ===== src/Scripts/Doctor.antt =====
-- scripts/doctor.go: the preflight of a session. What a tool does when it is run, and the text of the
-- Makefile, are parameters. The texts that say what a tool is for are left out.
pub mod Recipes
pub mod Unknown
pub mod FirstLine
pub mod Preflight
pub mod Verdict
mod Tests
use mascotapp.Base.{
  ℕ, ◌+◌, ◌≡◌, ◌≢◌, Bool, true, false, not, ◌&&◌, ◌||◌, List, [], ◌∷◌, ◌++◌, map, Option, none,
  some, Bytes, codes, ◌==◌, ltb, any, is_empty, is_space, length, split, take, trim_space,
  if◌then◌else◌, is_some,
}
use mascotapp.Base.Members.{contains}
use mascotapp.Scripts.Text.{
  has_prefix, trim_prefix, trim_right_of, strip_last, fields, split_pair, collapse, is_trailing,
}

-- recipeLines

-- " \t\r"
abbrev pub is_blank : ℕ → Bool
is_blank c = c == 32 || c == 9 || c == 13

-- The loop over the physical lines. An empty `pending` is a builder of length 0.
unfoldable pub join_lines : Bytes → List Bytes → List Bytes
unfolding has_prefix
join_lines pending [] = if is_empty pending then [] else pending ∷ []
join_lines pending (line ∷ lines) =
    let skipped = join_lines pending lines in
    let trimmed = trim_right_of is_blank line in
    let longer = λ (part : Bytes). join_lines (pending ++ (part ++ 32 ∷ [])) lines in
    let closed = join_lines [] lines in
    elim (not (has_prefix (9 ∷ []) line) && is_empty pending) [
      | true ↦ skipped
      | false ↦ elim (strip_last 92 trimmed) [
        | some part ↦ longer part
        | none ↦ if is_empty pending then trimmed ∷ closed else (pending ++ trimmed) ∷ closed
      ]
    ]

unfoldable pub recipe_lines : Bytes → List Bytes
unfolding join_lines
recipe_lines makefile = join_lines [] (split 10 makefile)

-- unknownMakefileTools

-- The loop over the fields that are assignments of the environment.
unfoldable pub drop_assignments : List Bytes → List Bytes
drop_assignments [] = []
drop_assignments (field ∷ rest) = elim (any (λ c. c == b'=') field) [
  | true ↦ drop_assignments rest
  | false ↦ field ∷ rest
]

-- The name that one command runs.
unfoldable pub command_name : Bytes → Option Bytes
unfolding drop_assignments
command_name command = elim (drop_assignments (fields (trim_space command))) [
  | [] ↦ none
  | name ∷ rest ↦ some name
]

-- The commands of one logical line.
unfoldable pub commands_of : Bytes → List Bytes
unfolding split_pair trim_prefix
commands_of line = split_pair b'&' (trim_prefix (b'@' ∷ []) (trim_space line))

-- The inner and the outer loop: the commands of every line, in order.
unfoldable pub all_commands : List Bytes → List Bytes
unfolding commands_of
all_commands [] = []
all_commands (line ∷ lines) = commands_of line ++ all_commands lines

abbrev pub shell : List Bytes
shell =
    codes "cd"
    ∷ codes "rm"
    ∷ codes "mkdir"
    ∷ codes "echo"
    ∷ codes "if"
    ∷ codes "fi"
    ∷ codes "then"
    ∷ codes "else"
    ∷ codes "exit"
    ∷ codes "make"
    ∷ codes "for"
    ∷ codes "done"
    ∷ codes "set"
    ∷ codes "true"
    ∷ codes "false"
    ∷ codes "test"
    ∷ []

-- A name that is no tool to look for: a variable, a quoted text, a word of the shell or a known tool.
unfoldable pub is_excused : List Bytes → Bytes → Bool
unfolding has_prefix
is_excused known name =
    has_prefix (b'$' ∷ []) name
    || has_prefix (b'"' ∷ []) name
    || contains shell name
    || contains known name

-- What the body does with a command, with the names seen.
unfoldable pub unknown_from : List Bytes → List Bytes → List Bytes → List Bytes
unknown_from known seen [] = []
unknown_from known seen (command ∷ commands) =
    let skipped = unknown_from known seen commands in
    elim (command_name command) [
      | none ↦ skipped
      | some name ↦
          let rest = unknown_from known (name ∷ seen) commands in
          if is_excused known name || contains seen name then skipped else name ∷ rest
    ]

-- `none` is a Makefile that cannot be read.
unfoldable pub unknown_makefile_tools : List Bytes → Option Bytes → List Bytes
unfolding unknown_from all_commands recipe_lines
unknown_makefile_tools known none = []
unknown_makefile_tools known (some content) =
    unknown_from known [] (all_commands (recipe_lines content))

-- firstLine

-- strings.IndexAny(text, "\r\n") and the cut before it.
unfoldable pub before_newline : Bytes → Bytes
before_newline [] = []
before_newline (c ∷ s) = elim (c == 13 || c == 10) [ true ↦ [] | false ↦ c ∷ before_newline s ]

unfoldable pub first_line : Bytes → Bytes
unfolding before_newline collapse
first_line out =
    let text = trim_space out in
    let line = trim_space (collapse false (before_newline text)) in
    if is_empty text
    then codes "(no output)"
    else if ltb 90 (length line)
    then trim_right_of is_trailing (take 89 line) ++ 8230 ∷ []
    else line
