-- ===== src/Db/Samples.antt =====
-- A state that the tests start from.
use mascotapp.Base.{ℕ, List, [], ◌∷◌, Option, none, Bytes, false, replicate}
use mascotapp.Db.State.{State, RefreshToken, TotpRecoveryCode}

-- A uuid of one number.
abbrev pub uuid : ℕ → Bytes
uuid n = replicate 16 n

-- A connection on which every statement runs.
abbrev pub server_with :
    List RefreshToken → List TotpRecoveryCode → List (Option Bytes) → List (Option Bytes) → State
server_with tokens recovery random names = record {
  tables = record { refresh_tokens = tokens; recovery_codes = recovery };
  shelter_setting = record { session = none; local = none };
  user_setting = record { session = none; local = none };
  read_only = false;
  clock = 1000;
  faults = [];
  draws = random;
  ids = names;
  calls = [];
  response = [];
}

abbrev pub empty_server : State
empty_server = server_with [] [] [] []

abbrev pub toy_sha256 : Bytes → Bytes
toy_sha256 bytes = 35 ∷ bytes
