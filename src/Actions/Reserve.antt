-- ===== src/Actions/Reserve.antt =====
-- The sections of routeKeyOperation before the call of the provider: the admission of a press or
-- repeat, and what a repeat waits for.
use phonepad.Base.{
  Bool, Bytes, Option, [], ascii, bytes_eq, false, get, get_at, if◌then◌else◌, leb, length, ltb,
  none, not, put, put_at, some, suc, true, ℕ, ◌&&◌, ◌-◌, ◌||◌, ◌∷◌,
}
use phonepad.Actions.Operations.{
  ActionOperation, ActionReceipt, ActionState, Actions, KeyMessage, max_action_operations, pending,
  phase_of, press, rejected, repeat, same_strings, uncertain,
}

-- What the first section tells its goroutine: answer, wait for a channel and look again, or go on
-- with the sequence that is now its own.
pub data Admission : Type 0 where
  answers : ActionReceipt → Admission
  awaits : Option ℕ → Admission
  grants : Admission

abbrev pub refusal : Bytes → Bytes → KeyMessage → Bytes → ℕ → ActionReceipt
refusal epoch phase m detail count = record {
  operation_id = m.operation_id;
  phase = phase;
  state = rejected;
  repeat_count = count;
  replayed = false;
  detail = detail;
  session_epoch = epoch;
}

abbrev pub replay : ActionReceipt → ActionReceipt
replay r = record r { replayed = true }

abbrev pub put_operation : Bytes → ActionOperation → Actions → Actions
put_operation id op a = record a { operations = put id op a.operations }

-- The state of a press that left no receipt.
abbrev unrecorded : ActionState → ActionState
unrecorded pending = uncertain
unrecorded state = state

same_action : ActionOperation → Bytes → KeyMessage → Bool
same_action op epoch m =
    bytes_eq op.session_epoch epoch
    && bytes_eq op.action m.action
    && bytes_eq op.key m.key
    && same_strings op.mods m.mods

unfoldable pub press_again : Actions → ActionOperation → Bytes → KeyMessage → Actions × Admission
press_again a op epoch m =
    if ltb 1 m.action_sequence
    then (a, answers (refusal epoch press m (ascii "sequence_conflict") 0))
    else elim (get_at 1 op.receipts) [
      | some r ↦ (a, answers (replay r))
      | none ↦ (
        a,
        answers (record {
          operation_id = m.operation_id;
          phase = press;
          state = unrecorded op.state;
          repeat_count = op.repeat_count;
          replayed = true;
          detail = [];
          session_epoch = epoch;
        }),
      )
    ]

unfoldable pub repeat_past : Actions → ActionOperation → KeyMessage → Actions × Admission
repeat_past a op m = elim (get_at m.action_sequence op.receipts) [
  | some r ↦ (a, answers (replay r))
  | none ↦ (a, awaits (get_at m.action_sequence op.sequence_done))
]

unfoldable pub repeat_next : Actions → ActionOperation → Bytes → KeyMessage → Actions × Admission
repeat_next a op epoch m =
    if leb max_action_operations op.repeat_count
    then (
      put_operation m.operation_id (record op { active = false; state = rejected }) a,
      answers (refusal epoch repeat m (ascii "repeat_limit") op.repeat_count),
    )
    else (
      record a {
        operations =
            put m.operation_id
              (record op {
                repeat_count = suc op.repeat_count;
                next_sequence = suc op.next_sequence;
                sequence_done = put_at m.action_sequence a.next_channel op.sequence_done;
              })
              a.operations;
        next_channel = suc a.next_channel;
      },
      grants,
    )

unfoldable pub known_operation :
    Actions → ActionOperation → Bytes → KeyMessage → Actions × Admission
unfolding same_action press_again repeat_past repeat_next
known_operation a op epoch m =
    if not (same_action op epoch m)
    then (a, answers (refusal epoch (phase_of m) m (ascii "operation_conflict") 0))
    else if bytes_eq (phase_of m) press
    then press_again a op epoch m
    else if not op.active
    then (a, answers (refusal epoch repeat m (ascii "operation_cancelled") op.repeat_count))
    else if ltb m.action_sequence op.next_sequence
    then repeat_past a op m
    else if ltb op.next_sequence m.action_sequence
    then (a, answers (refusal epoch repeat m (ascii "sequence_gap") op.repeat_count))
    else repeat_next a op epoch m

unfoldable pub new_operation : Bytes → KeyMessage → ℕ → ActionOperation
new_operation epoch m channel = record {
  session_epoch = epoch;
  action = m.action;
  key = m.key;
  mods = m.mods;
  active = true;
  state = pending;
  repeat_count = 0;
  next_sequence = 2;
  is_cancelled = false;
  receipts = [];
  sequence_done = (1, channel) ∷ [];
}

unfoldable pub unknown_operation : Actions → Bytes → KeyMessage → Actions × Admission
unfolding new_operation
unknown_operation a epoch m =
    if not (bytes_eq (phase_of m) press)
    then (a, answers (refusal epoch (phase_of m) m (ascii "unknown_operation") 0))
    else if leb max_action_operations (length a.operations)
    then (a, answers (refusal epoch press m (ascii "operation_capacity") 0))
    else if ltb 1 m.action_sequence
    then (a, answers (refusal epoch press m (ascii "sequence_conflict") 0))
    else (
      record a {
        operations = put m.operation_id (new_operation epoch m a.next_channel) a.operations;
        next_channel = suc a.next_channel;
      },
      grants,
    )

-- From the first lock of a press or repeat to its unlock.
unfoldable pub reserve : Actions → Bytes → KeyMessage → Actions × Admission
unfolding known_operation unknown_operation
reserve a epoch m = elim (get m.operation_id a.operations) [
  | some op ↦ known_operation a op epoch m
  | none ↦ unknown_operation a epoch m
]

-- The look at the receipts after `awaits`, when the channel is closed or the context is done.
unfoldable pub awaited : Actions → Bytes → KeyMessage → Bool → ℕ → ActionReceipt
awaited a epoch m is_closed count =
    let unknown = refusal epoch repeat m (ascii "sequence_unknown") in
    if not is_closed then unknown count else elim (get m.operation_id a.operations) [
      | none ↦ unknown 0
      | some op ↦ elim (get_at m.action_sequence op.receipts) [
        | none ↦ unknown op.repeat_count
        | some r ↦ replay r
      ]
    ]

-- The channel that a repeat waits for, which its predecessor closes.
unfoldable pub preceding : Actions → KeyMessage → Option ℕ
preceding a m = elim (get m.operation_id a.operations) [
  | none ↦ none
  | some op ↦ get_at (m.action_sequence - 1) op.sequence_done
]

-- `op.cancelled || !op.active`, after the wait; an operation that is gone reads as inactive.
unfoldable pub stopped : Actions → Bytes → Bool
stopped a id = elim (get id a.operations) [
  | none ↦ true
  | some op ↦ op.is_cancelled || not op.active
]
