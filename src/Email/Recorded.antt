-- ===== src/Email/Recorded.antt =====
-- What LogSender of email/logsender.go records.
use mascotapp.Base.{
  ◌≡◌, ◌≢◌, ◌↔◌, ◌⊎◌, inl, inr, refl, ap, List, [], ◌∷◌, Option, none, some, Bytes, is_empty,
  is_empty-nil, length, Bool-cases, arith,
}
use mascotapp.Email.{Message, Entry, check_send, entry_for, send}

-- What Send returns and records does not depend on the subject, and on no more of the body than its
-- length: a credential in the body reaches no log.
pub send-body :
    (ctx : Option Bytes) (to : Bytes) (m n : Message) (log : List Entry)
    → m.purpose ≡ n.purpose
    → length m.body ≡ length n.body
    → send ctx to m log ≡ send ctx to n log
unfolding send check_send
send-body (some e) to m n log same size = refl
send-body none to m n log same size = ground (arith, ap is_empty same)

-- Send returns nil exactly for a recipient, a purpose and a context that is not cancelled. It then
-- adds one record, and otherwise none.
pub send-nil_iff :
    (ctx : Option Bytes) (to : Bytes) (m : Message) (log : List Entry)
    → (((send ctx to m log).0 ≡ none) ↔ ((ctx ≡ none) × (to ≢ []) × (m.purpose ≢ [])))
      × ((((send ctx to m log).0 ≡ none) × ((send ctx to m log).1 ≡ entry_for to m ∷ log))
          ⊎ (((send ctx to m log).0 ≢ none) × ((send ctx to m log).1 ≡ log)))
unfolding send check_send
send-nil_iff (some e) to m log =
    (((λ h. ground arith), (λ h. ground (arith, h.0))), inr ((λ h. ground (arith, h)), refl))
send-nil_iff none to m log = elim (Bool-cases (is_empty to)) [
  | inl empty ↦ (
    ((λ h. ground arith), (λ h. elim (h.1 (is_empty-nil to empty)) [ ])),
    inr ((λ h. ground arith), ground arith),
  )
  | inr named ↦ elim (Bool-cases (is_empty m.purpose)) [
    | inl empty ↦ (
      ((λ h. ground arith), (λ h. elim (h.2 (is_empty-nil m.purpose empty)) [ ])),
      inr ((λ h. ground arith), ground arith),
    )
    | inr purposeful ↦ (
      (
        (λ h. (
          refl,
          (λ e. grind (arith, named, ap is_empty e)),
          (λ e. grind (arith, purposeful, ap is_empty e)),
        )),
        (λ h. ground arith),
      ),
      inl (ground arith, ground arith),
    )
  ]
]
