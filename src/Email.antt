-- ===== src/Email.antt =====
-- apps/api/internal/email: email.go and logsender.go. A context is the error that it holds, if it was
-- cancelled; a log is the list of its records, newest first.
pub mod Recorded
mod Tests
use mascotapp.Base.{
  ℕ, List, [], ◌∷◌, Option, none, some, Bytes, codes, is_empty, length, if◌then◌else◌,
}

pub record Message : Type 0 where
  pub purpose : Bytes
  pub subject : Bytes
  pub body : Bytes

pub data SendError : Type 0 where
  cancelled : Bytes → SendError
  no_recipient no_purpose : SendError

-- slog.String and slog.Int
pub data Attr : Type 0 where
  text : Bytes → Bytes → Attr
  number : Bytes → ℕ → Attr

pub record Entry : Type 0 where
  pub title : Bytes
  pub attrs : List Attr

-- checkSend: `none` is nil.
unfoldable pub check_send : Option Bytes → Bytes → Message → Option SendError
check_send (some e) to msg = some (SendError.cancelled e)
check_send none to msg =
    if is_empty to
    then some SendError.no_recipient
    else if is_empty msg.purpose
    then some SendError.no_purpose
    else none

-- What LogSender.Send writes about a message.
abbrev pub entry_for : Bytes → Message → Entry
entry_for to msg = record {
  title = codes "email send recorded";
  attrs =
      Attr.text (codes "adapter") (codes "log")
      ∷ Attr.text (codes "recipient") to
      ∷ Attr.text (codes "purpose") msg.purpose
      ∷ Attr.number (codes "body_bytes") (length msg.body)
      ∷ [];
}

-- LogSender.Send: its error, and the log.
unfoldable pub send : Option Bytes → Bytes → Message → List Entry → Option SendError × List Entry
send ctx to msg log = elim (check_send ctx to msg) [
  | some e ↦ (some e, log)
  | none ↦ (none, entry_for to msg ∷ log)
]
