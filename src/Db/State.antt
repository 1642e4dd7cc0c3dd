-- ===== src/Db/State.antt =====
-- The tables of the auth door, the settings of one pooled connection, and the monad of code that
-- runs statements. The rows are those of sqlcgen/models.go.
use mascotapp.Base.{
  ◌≡◌, arith, ℕ, Bool, false, List, [], ◌∷◌, Option, none, some, Bytes, if◌then◌else◌,
}
use mascotapp.Errors.{Error, Stage, driver_failed}

-- A row of refresh_tokens. A pgtype value with `Valid` false is `none`.
pub record RefreshToken : Type 0 where
  pub id : Bytes
  pub user_id : Bytes
  pub token_hash : Bytes
  pub family_id : Bytes
  pub expires_at : Option ℕ
  pub revoked_at : Option ℕ
  pub replaced_by : Option Bytes
  pub user_agent : Option Bytes
  pub ip_hash : Option Bytes
  pub created_at : ℕ

-- A row of totp_recovery_codes.
pub record TotpRecoveryCode : Type 0 where
  pub id : Bytes
  pub user_id : Bytes
  pub code_hash : Bytes
  pub used_at : Option ℕ
  pub created_at : ℕ

pub record Tables : Type 0 where
  pub refresh_tokens : List RefreshToken
  pub recovery_codes : List TotpRecoveryCode

-- A server setting: the value of the session, and the transaction's own, if it set one.
pub record Setting : Type 0 where
  pub session : Option Bytes
  pub local : Option Bytes

-- current_setting
abbrev pub current : Setting → Option Bytes
current g = elim g.local [ some v ↦ some v | none ↦ g.session ]

-- nullif(…, ''), by which every policy reads a setting.
unfoldable pub nullif : Option Bytes → Option Bytes
nullif none = none
nullif (some []) = none
nullif (some (c ∷ cs)) = some (c ∷ cs)

-- What the code asked of the driver to open, scope and close transactions, newest first.
pub data Call : Type 0 where
  began began_read_only set_tenant set_user committed rolled_back : Call

-- What a handler did to its http.ResponseWriter: Header().Add, Header().Set, and WriteHeader with the
-- body that follows.
pub data Written : Type 0 where
  added header_set : Bytes → Bytes → Written
  answered : ℕ → Bytes → Written

-- `faults` says of each later statement whether it fails; beyond its end they all run. `draws` are
-- the results of rand.Read and `ids` those of uuid.New and uuid.NewV7, `none` for an error.
-- `response` is what the handlers wrote, newest first.
pub record State : Type 0 where
  pub tables : Tables
  pub shelter_setting : Setting
  pub user_setting : Setting
  pub read_only : Bool
  pub clock : ℕ
  pub faults : List Bool
  pub draws : List (Option Bytes)
  pub ids : List (Option Bytes)
  pub calls : List Call
  pub response : List Written

-- What a Go function does: it returns a value, returns an error, or panics.
pub data Outcome {ℓ} (A : Type ℓ) : Type ℓ where
  ok : A → Outcome A
  err : Error → Outcome A
  panicked : ℕ → Outcome A

abbrev pub M : Type 0 → Type 0
M A = State → Outcome A × State

abbrev pub pure : {A : Type 0} → A → M A
pure a s = (ok a, s)

abbrev pub throw : {A : Type 0} → Error → M A
throw e s = (err e, s)

abbrev pub continue : {A B : Type 0} → (A → M B) → Outcome A × State → Outcome B × State
continue f (ok a, s) = f a s
continue f (err e, s) = (err e, s)
continue f (panicked p, s) = (panicked p, s)

infixl 5 ◌>>=◌ ◌>>◌
abbrev pub ◌>>=◌ : {A B : Type 0} → M A → (A → M B) → M B
◌>>=◌ m f s = continue f (m s)

abbrev pub ◌>>◌ : {B : Type 0} → M (Unit {0}) → M B → M B
m >> k = m >>= λ _. k

abbrev pub next_fails : State → Bool
next_fails s = elim s.faults [ [] ↦ false | b ∷ rest ↦ b ]

abbrev pub tick : State → State
tick s = record s { faults = elim s.faults [ [] ↦ [] | b ∷ rest ↦ rest ] }

-- One round trip to the server.
unfoldable pub statement : Stage → M (Unit {0})
statement stage s = if next_fails s then (err (driver_failed stage), tick s) else (ok tt, tick s)

abbrev pub note : Call → State → State
note c s = record s { calls = c ∷ s.calls }

-- Every later statement runs, and may write.
pub record IsQuiet (s : State) : Type 0 where
  pub no_faults : s.faults ≡ []
  pub writes : s.read_only ≡ false

pub statement-quiet : (stage : Stage) (s : State) → s.faults ≡ [] → statement stage s ≡ (ok tt, s)
unfolding statement
statement-quiet stage s h = ground arith
