-- ===== src/Scripts/Doctor/Verdict.antt =====
-- When the preflight of scripts/doctor.go fails.
use mascotapp.Base.{
  ◌≡◌, Bool, ◌||◌, List, [], ◌∷◌, ◌++◌, map, Option, none, some, Bytes, if◌then◌else◌,
}
use mascotapp.Base.Members.{In}
use mascotapp.Scripts.Doctor.Unknown.{names_in, IsUnlisted}
use mascotapp.Scripts.Doctor.Preflight.{
  Check, Verdict, Ran, exited_well, Fresh, run_check, fresh_binary_check, names_known, Outcome,
  clean, with_warnings, failed,
}

-- The tool is on the path, and its probe ends in time and well.
abbrev pub Runs : (Bytes → Option Bytes) → (Bytes → List Bytes → Ran) → Check → Type 0
Runs look_path exec c =
    (path : Bytes) × (out : Bytes) × (look_path c.tool ≡ some path)
    × (exec path c.args ≡ exited_well out)

-- The last switch of main.
abbrev outcome : Bool → Bool → Bool → Outcome
outcome failing unknown problem =
    if failing || unknown then failed else if problem then with_warnings else clean

-- Every tool that a recipe of the Makefile runs is listed, if the Makefile can be read.
abbrev pub AllListed : List Check → Option Bytes → Type 0
AllListed checks none = Unit
AllListed checks (some content) =
    (a : Bytes) → In a (names_in content) → ¬ IsUnlisted (names_known checks) a

module _ (look_path : Bytes → Option Bytes) (exec : Bytes → List Bytes → Ran) where
  abbrev results : List Check → Fresh → List Verdict
  results checks program = map (run_check look_path exec) checks ++ fresh_binary_check program ∷ []
