-- ===== src/Actions/Operations.antt =====
-- actionOperation, actionReceipt and the results of a provider, of
-- daemon/internal/server/actions.go and protocol.go.
use phonepad.Base.{
  Bool, Bytes, List, [], ascii, bytes_eq, false, if◌then◌else◌, is_empty, true, ℕ, ◌&&◌, ◌∷◌,
}

abbrev pub max_action_operations : ℕ
max_action_operations = 128

pub data ActionState : Type 0 where
  pending executed admitted rejected uncertain cancelled : ActionState

-- The field "t" is "receipt" in every one.
pub record ActionReceipt : Type 0 where
  pub operation_id : Bytes
  pub phase : Bytes
  pub state : ActionState
  pub repeat_count : ℕ
  pub replayed : Bool
  pub detail : Bytes
  pub session_epoch : Bytes

-- A channel is a number that no other channel has; `dispatchMu` is left out.
pub record ActionOperation : Type 0 where
  pub session_epoch : Bytes
  pub action : Bytes
  pub key : Bytes
  pub mods : List Bytes
  pub active : Bool
  pub state : ActionState
  pub repeat_count : ℕ
  pub next_sequence : ℕ
  pub is_cancelled : Bool
  pub receipts : List (ℕ × ActionReceipt)
  pub sequence_done : List (ℕ × ℕ)

-- The fields of a message that the actions read.
pub record KeyMessage : Type 0 where
  pub operation_id : Bytes
  pub action : Bytes
  pub key : Bytes
  pub mods : List Bytes
  pub phase : Bytes
  pub action_sequence : ℕ

-- Server.actionOps, with the next unused channel and the closed ones.
pub record Actions : Type 0 where
  pub operations : List (Bytes × ActionOperation)
  pub next_channel : ℕ
  pub closed : List ℕ

abbrev pub press : Bytes
press = ascii "press"

abbrev pub repeat : Bytes
repeat = ascii "repeat"

abbrev pub phase_of : KeyMessage → Bytes
phase_of m = if is_empty m.phase then press else m.phase

unfoldable pub same_strings : List Bytes → List Bytes → Bool
same_strings [] [] = true
same_strings (a ∷ as_) (b ∷ bs) = bytes_eq a b && same_strings as_ bs
same_strings _ _ = false

abbrev pub is_uncertain : ActionState → Bool
is_uncertain uncertain = true
is_uncertain _ = false

-- "executed" or "admitted"
abbrev pub succeeded : ActionState → Bool
succeeded executed = true
succeeded admitted = true
succeeded _ = false

-- What the end of executeKeyAction makes of a provider's result.
unfoldable pub result_of : Bytes → Bytes → ActionState × Bytes
result_of state detail =
    if bytes_eq state (ascii "executed")
    then (executed, detail)
    else if bytes_eq state (ascii "admitted")
    then (admitted, detail)
    else if bytes_eq state (ascii "rejected")
    then (rejected, detail)
    else if bytes_eq state (ascii "uncertain")
    then (uncertain, detail)
    else (uncertain, ascii "invalid_provider_receipt")
