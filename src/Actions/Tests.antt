-- ===== src/Actions/Tests.antt =====
-- A key that is pressed, held and let go.
use phonepad.Base.{
  Bytes, List, [], ascii, bytes_eq, false, get, get_at, length, put, refl, remove_at, true, ℕ, ◌∷◌,
  ◌≡◌, ◌≤◌,
}
use phonepad.Actions.Operations.{
  ActionOperation, Actions, KeyMessage, executed, pending, same_strings,
}
use phonepad.Actions.History.{
  Section, completes, given, granted, granted_by, no_actions, reserves, run_section, run_sections,
}
use phonepad.Actions.Sections.{admit_action_provider, cancel_action, complete_action}
use phonepad.Actions.Cancelled.{cancel_stops}
use phonepad.Actions.Grants.{count_from, no_actions-grants}
use phonepad.Actions.Reserve.{
  known_operation, new_operation, press_again, repeat_next, repeat_past, reserve, stopped,
  unknown_operation,
}
use phonepad.Actions.Bounds.{no_actions-bounded}

abbrev key_press : KeyMessage
key_press = record {
  operation_id = ascii "op-1";
  action = ascii "special";
  key = ascii "ArrowDown";
  mods = [];
  phase = ascii "press";
  action_sequence = 0;
}

abbrev key_repeat : ℕ → KeyMessage
key_repeat n = record key_press { phase = ascii "repeat"; action_sequence = n }

abbrev epoch : Bytes
epoch = ascii "e1"

abbrev held_key : List Section
held_key =
    reserves epoch key_press
    ∷ reserves epoch (key_repeat 2)
    ∷ reserves epoch (key_repeat 2)
    ∷ completes epoch key_press executed []
    ∷ reserves epoch key_press
    ∷ reserves epoch (key_repeat 3)
    ∷ []

held_key_sequences : granted no_actions (ascii "op-1") held_key ≡ 1 ∷ 2 ∷ 3 ∷ []
unfolding granted granted_by given run_section reserve complete_action bytes_eq get put get_at
    remove_at same_strings known_operation unknown_operation press_again repeat_past repeat_next
    new_operation
held_key_sequences = refl

no_actions-grants_example :
    let out = granted no_actions (ascii "op-1") held_key in out ≡ count_from 1 (length out)
no_actions-grants_example = no_actions-grants (ascii "op-1") held_key

abbrev pressed_operation : ActionOperation
pressed_operation = record {
  session_epoch = epoch;
  action = ascii "special";
  key = ascii "ArrowDown";
  mods = [];
  active = true;
  state = pending;
  repeat_count = 0;
  next_sequence = 2;
  is_cancelled = false;
  receipts = [];
  sequence_done = (1, 0) ∷ [];
}

abbrev pressed : Actions
pressed = record {
  operations = (ascii "op-1", pressed_operation) ∷ [];
  next_channel = 1;
  closed = [];
}

cancel_stops_example :
    let a = run_sections (cancel_action pressed epoch key_press).0 held_key in
    (admit_action_provider a (ascii "op-1") ≡ false) × (stopped a (ascii "op-1") ≡ true)
unfolding get bytes_eq
cancel_stops_example =
    cancel_stops pressed epoch key_press pressed_operation held_key refl refl refl

no_actions-bounded_example :
    (length (run_sections no_actions held_key).operations ≤ 128)
    × (length (granted no_actions (ascii "op-1") held_key) ≤ 129)
no_actions-bounded_example = no_actions-bounded (ascii "op-1") held_key
