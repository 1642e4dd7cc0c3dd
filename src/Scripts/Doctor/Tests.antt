-- ===== src/Scripts/Doctor/Tests.antt =====
-- Runs of the preflight on small Makefiles.
use mascotapp.Base.{
  ◌≡◌, ◌↔◌, refl, List, [], ◌∷◌, ◌++◌, Option, some, Bytes, codes, ◌=ᵇ◌, trim_space, split,
}
use mascotapp.Base.Members.{In, Distinct, contains}
use mascotapp.Scripts.Text.{has_prefix, trim_right_of, strip_last, fields}
use mascotapp.Scripts.Doctor.{command_name, is_excused, unknown_makefile_tools, first_line}
use mascotapp.Scripts.Doctor.Unknown.{names_in, IsUnlisted, unknown_makefile_tools-exactly}
use mascotapp.Scripts.Doctor.Preflight.{
  manifest, Ran, exited_well, printed, token, names_known, preflight, exit_status,
}

-- build:
-- <tab>@GOFLAGS=x go build && cp a b
abbrev makefile : Bytes
makefile = codes "build:" ++ 10 ∷ 9 ∷ codes "@GOFLAGS=x go build && cp a b" ++ 10 ∷ []

cp_is_unknown : unknown_makefile_tools (names_known manifest) (some makefile) ≡ codes "cp" ∷ []
unfolding unknown_makefile_tools split has_prefix trim_right_of strip_last trim_space command_name
    fields is_excused contains ◌=ᵇ◌
cp_is_unknown = refl

two_lines : first_line (codes " go1.27" ++ 10 ∷ codes "more") ≡ codes "go1.27"
unfolding first_line trim_space
two_lines = refl

unknown_makefile_tools-exactly_example :
    Distinct (unknown_makefile_tools (names_known manifest) (some makefile))
    × ((a : Bytes)
        → In a (unknown_makefile_tools (names_known manifest) (some makefile))
          ↔ (In a (names_in makefile) × IsUnlisted (names_known manifest) a))
unknown_makefile_tools-exactly_example =
    unknown_makefile_tools-exactly (names_known manifest) makefile

-- Every tool is there and answers.
abbrev on_path : Bytes → Option Bytes
on_path tool = some (codes "/usr/bin/" ++ tool)

abbrev answers : Bytes → List Bytes → Ran
answers path args = exited_well (codes "1.0")

-- One unlisted tool stops a session on a machine where every tool runs.
unlisted_blocks :
    exit_status (preflight manifest on_path answers (printed token) (some makefile)) ≡ 1
unfolding preflight unknown_makefile_tools split has_prefix trim_right_of strip_last trim_space
    command_name fields is_excused contains ◌=ᵇ◌
unlisted_blocks = refl
