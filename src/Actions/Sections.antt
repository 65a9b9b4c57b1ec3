-- ===== src/Actions/Sections.antt =====
-- The sections of routeKeyOperation and its helpers around the call of the provider, and that of a
-- cancellation.
use phonepad.Base.{
  Bool, Bytes, List, Option, [], ascii, bytes_eq, false, get, get_at, if◌then◌else◌, map, none, not,
  put, put_at, remove_at, some, true, ℕ, ◌&&◌, ◌++◌, ◌==◌, ◌∷◌,
}
use phonepad.Actions.Operations.{
  ActionOperation, ActionReceipt, ActionState, Actions, KeyMessage, admitted, cancelled, executed,
  is_uncertain, phase_of, succeeded, uncertain,
}
use phonepad.Actions.Reserve.{refusal}

-- admitActionProvider
unfoldable pub admit_action_provider : Actions → Bytes → Bool
admit_action_provider a id = elim (get id a.operations) [
  | none ↦ false
  | some op ↦ not op.is_cancelled && op.active
]

-- The channel of a sequence is closed and its entry removed.
abbrev closed_with : Option ℕ → List ℕ → List ℕ
closed_with none cs = cs
closed_with (some c) cs = c ∷ cs

abbrev pub close_action_sequence : Actions → Bytes → ActionOperation → ℕ → Actions
close_action_sequence a id op sequence = record a {
  operations =
      put id (record op { sequence_done = remove_at sequence op.sequence_done }) a.operations;
  closed = closed_with (get_at sequence op.sequence_done) a.closed;
}

abbrev finished_state : ActionOperation → ActionState → ActionOperation
finished_state op state =
    if succeeded state
    then op
    else record op { active = false; state = if op.is_cancelled then op.state else state }

-- finishQueuedAction
unfoldable pub finish_queued_action :
    Actions → Bytes → KeyMessage → Bytes → Bytes → ActionState → Actions × ActionReceipt
finish_queued_action a epoch m phase detail state = elim (get m.operation_id a.operations) [
  | none ↦ (a, refusal epoch phase m (ascii "unknown_operation") 0)
  | some op ↦
      let r : ActionReceipt = record {
        operation_id = m.operation_id;
        phase = phase;
        state = state;
        repeat_count = op.repeat_count;
        replayed = false;
        detail = detail;
        session_epoch = op.session_epoch;
      } in
      let op' = finished_state op state in
      (
        close_action_sequence a m.operation_id
            (record op' { receipts = put_at m.action_sequence r op'.receipts }) m.action_sequence,
        r,
      )
]

-- What a result means for an operation that is cancelled meanwhile, or not.
abbrev after_cancel : ActionState → Bytes → Bytes
after_cancel executed detail = ascii "executed_after_cancel"
after_cancel admitted detail = ascii "admitted_after_cancel"
after_cancel uncertain detail = ascii "uncertain_after_cancel"
after_cancel _ detail = detail

abbrev settled : ActionOperation → ActionState → ActionOperation
settled op result =
    if op.is_cancelled
    then record op { active = false }
    else if succeeded result
    then record op { state = result }
    else record op { state = result; active = false }

abbrev recorded_sequence : ℕ → ℕ
recorded_sequence sequence = if sequence == 0 then 1 else sequence

complete_known :
    Actions → ActionOperation → Bytes → KeyMessage → ActionState → Bytes → Actions × ActionReceipt
complete_known a op epoch m result detail =
    let sequence = recorded_sequence m.action_sequence in
    let r : ActionReceipt = record {
      operation_id = m.operation_id;
      phase = phase_of m;
      state = result;
      repeat_count = op.repeat_count;
      replayed = false;
      detail = if op.is_cancelled then after_cancel result detail else detail;
      session_epoch = epoch;
    } in
    let op' = settled op result in
    (
      close_action_sequence a m.operation_id
          (record op' { receipts = put_at sequence r op'.receipts }) sequence,
      r,
    )

abbrev session_replaced : Bytes → KeyMessage → ActionState → ActionReceipt
session_replaced epoch m result = record {
  operation_id = m.operation_id;
  phase = phase_of m;
  state = result;
  repeat_count = 0;
  replayed = false;
  detail = ascii "session_replaced";
  session_epoch = epoch;
}

-- The section after the call of the provider.
unfoldable pub complete_action :
    Actions → Bytes → KeyMessage → ActionState → Bytes → Actions × ActionReceipt
unfolding complete_known
complete_action a epoch m result detail = elim (get m.operation_id a.operations) [
  | none ↦ (a, session_replaced epoch m result)
  | some op ↦
      if not (bytes_eq op.session_epoch epoch)
      then (a, session_replaced epoch m result)
      else complete_known a op epoch m result detail
]

abbrev channels : List (ℕ × ℕ) → List ℕ
channels done = map (λ entry. entry.1) done

cancelled_receipt : Bytes → Bytes → ActionOperation → Bool → Bytes → ActionReceipt
cancelled_receipt epoch id op replayed detail = record {
  operation_id = id;
  phase = ascii "cancel";
  state = cancelled;
  repeat_count = op.repeat_count;
  replayed = replayed;
  detail = detail;
  session_epoch = epoch;
}

cancel_known : Actions → ActionOperation → Bytes → KeyMessage → Actions × ActionReceipt
unfolding cancelled_receipt
cancel_known a op epoch m =
    if op.is_cancelled then (a, cancelled_receipt epoch m.operation_id op true []) else (
      record a {
        operations =
            put m.operation_id
              (record op {
                active = false;
                is_cancelled = true;
                state = cancelled;
                sequence_done = [];
              })
              a.operations;
        closed = channels op.sequence_done ++ a.closed;
      },
      cancelled_receipt epoch m.operation_id op false
          (if is_uncertain op.state then ascii "repeat_stopped_after_uncertain" else []),
    )

-- A cancellation. The first of its two sections only refuses what the second refuses.
unfoldable pub cancel_action : Actions → Bytes → KeyMessage → Actions × ActionReceipt
unfolding cancel_known
cancel_action a epoch m =
    let unknown = refusal epoch (ascii "cancel") m (ascii "unknown_operation") 0 in
    elim (get m.operation_id a.operations) [
      | none ↦ (a, unknown)
      | some op ↦
          if not (bytes_eq op.session_epoch epoch) then (a, unknown) else cancel_known a op epoch m
    ]
