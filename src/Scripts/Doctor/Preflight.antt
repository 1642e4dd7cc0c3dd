-- ===== src/Scripts/Doctor/Preflight.antt =====
-- scripts/doctor.go: the manifest, the probes and the exit status. What the system answers to a probe is
-- a parameter.
use mascotapp.Base.{
  ℕ, Bool, true, false, ◌||◌, List, [], ◌∷◌, ◌++◌, map, Option, none, some, Bytes, codes, ◌=ᵇ◌, any,
  trim_space, if◌then◌else◌,
}
use mascotapp.Scripts.Doctor.{first_line, unknown_makefile_tools}

pub data Severity : Type 0 where
  required optional : Severity

-- check, where `tool` and `args` are the probe.
pub record Check : Type 0 where
  pub name : Bytes
  pub sev : Severity
  pub tool : Bytes
  pub args : List Bytes

abbrev check : Severity → Bytes → List Bytes → Check
check sev tool args = record { name = tool; sev = sev; tool = tool; args = args }

abbrev pub manifest : List Check
manifest =
    check required (codes "go") (codes "version" ∷ [])
    ∷ check required (codes "docker")
        (codes "version" ∷ codes "--format" ∷ codes "{{.Server.Version}}" ∷ [])
    ∷ check required (codes "git") (codes "--version" ∷ [])
    ∷ check required (codes "npm") (codes "--version" ∷ [])
    ∷ check required (codes "golangci-lint") (codes "--version" ∷ [])
    ∷ check required (codes "govulncheck") (codes "-version" ∷ [])
    ∷ check required (codes "sqlc") (codes "version" ∷ [])
    ∷ check required (codes "oapi-codegen") (codes "--version" ∷ [])
    ∷ check optional (codes "goose") (codes "--version" ∷ [])
    ∷ check optional (codes "gentle-ai") (codes "--version" ∷ [])
    ∷ []

pub data Status : Type 0 where
  passed warned broken : Status

-- The text of the second column, by what it says.
pub data Detail : Type 0 where
  not_on_path no_answer compiled_and_ran : Detail
  would_not_run no_scratch no_probe_file not_compiled unexpected_output : Bytes → Detail
  said : Bytes → Detail

-- result, with its check.
pub record Verdict : Type 0 where
  pub name : Bytes
  pub status : Status
  pub detail : Detail
  pub failing : Bool

-- How the process of a probe ended: past its deadline, with an error and its output, or well.
pub data Ran : Type 0 where
  timed_out : Ran
  exited_badly : Bytes → Ran
  exited_well : Bytes → Ran

abbrev pub is_required : Severity → Bool
is_required required = true
is_required optional = false

-- The three branches of run that set FAIL, and WARN for an optional tool.
unfoldable pub failed_check : Check → Detail → Verdict
failed_check c detail = record {
  name = c.name;
  status = if is_required c.sev then broken else warned;
  detail = detail;
  failing = is_required c.sev;
}

-- run, on exec.LookPath and the run of the path with the arguments.
unfoldable pub run_check : (Bytes → Option Bytes) → (Bytes → List Bytes → Ran) → Check → Verdict
unfolding failed_check first_line
run_check look_path exec c = elim (look_path c.tool) [
  | none ↦ failed_check c not_on_path
  | some path ↦ elim (exec path c.args) [
    | timed_out ↦ failed_check c no_answer
    | exited_badly out ↦ failed_check c (would_not_run (first_line out))
    | exited_well out ↦ record {
      name = c.name;
      status = passed;
      detail = said (first_line out);
      failing = false;
    }
  ]
]

-- What happens to the throwaway program of freshBinaryCheck: where it stops, or what it prints.
pub data Fresh : Type 0 where
  scratch_failed write_failed build_failed run_failed printed : Bytes → Fresh

abbrev pub token : Bytes
token = codes "mascotapp-doctor-ok"

abbrev fresh : Status → Detail → Verdict
fresh status detail = record {
  name = codes "fresh-binary";
  status = status;
  detail = detail;
  failing = false;
}

-- freshBinaryCheck
unfoldable pub fresh_binary_check : Fresh → Verdict
unfolding first_line
fresh_binary_check (scratch_failed e) = fresh warned (no_scratch e)
fresh_binary_check (write_failed e) = fresh warned (no_probe_file e)
fresh_binary_check (build_failed out) = fresh warned (not_compiled (first_line out))
fresh_binary_check (run_failed out) = fresh warned (would_not_run (first_line out))
fresh_binary_check (printed out) =
    if trim_space out =ᵇ token
    then fresh passed compiled_and_ran
    else fresh warned (unexpected_output (first_line out))

abbrev pub is_ok : Status → Bool
is_ok passed = true
is_ok warned = false
is_ok broken = false

-- The loop that collects the problems, in order.
unfoldable pub problems : List Verdict → List Verdict
problems [] = []
problems (r ∷ rs) = let rest = problems rs in if is_ok r.status then rest else r ∷ rest

abbrev pub names_known : List Check → List Bytes
names_known [] = []
names_known (c ∷ cs) = c.tool ∷ names_known cs

-- len(l) > 0
abbrev pub is_some_of {ℓ} : {A : Type ℓ} → List A → Bool
is_some_of [] = false
is_some_of (x ∷ xs) = true

pub data Outcome : Type 0 where
  clean with_warnings failed : Outcome

-- os.Exit(1), or the end of main.
abbrev pub exit_status : Outcome → ℕ
exit_status clean = 0
exit_status with_warnings = 0
exit_status failed = 1

-- main from its loop over the manifest to its last switch, for a list of checks.
unfoldable pub preflight :
    List Check
    → (Bytes → Option Bytes)
    → (Bytes → List Bytes → Ran)
    → Fresh
    → Option Bytes
    → Outcome
unfolding run_check fresh_binary_check problems
preflight checks look_path exec program makefile =
    let results = map (run_check look_path exec) checks ++ fresh_binary_check program ∷ [] in
    let unknown = unknown_makefile_tools (names_known checks) makefile in
    let blocked = any (λ r. r.failing) (problems results) || is_some_of unknown in
    if blocked then failed else if is_some_of (problems results) then with_warnings else clean
