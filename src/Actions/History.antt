-- ===== src/Actions/History.antt =====
-- Sections of many goroutines in any order, within one session.
use phonepad.Base.{Bytes, List, [], bytes_eq, if◌then◌else◌, ℕ, ◌++◌, ◌∷◌}
use phonepad.Actions.Operations.{ActionState, Actions, KeyMessage, phase_of, press}
use phonepad.Actions.Reserve.{Admission, grants, reserve}
use phonepad.Actions.Sections.{cancel_action, complete_action, finish_queued_action}

-- The sections that may change the operations.
pub data Section : Type 0 where
  reserves : Bytes → KeyMessage → Section
  finishes : Bytes → KeyMessage → Bytes → Bytes → ActionState → Section
  completes : Bytes → KeyMessage → ActionState → Bytes → Section
  cancels : Bytes → KeyMessage → Section

unfoldable pub run_section : Actions → Section → Actions
run_section a (reserves epoch m) = (reserve a epoch m).0
run_section a (finishes epoch m phase detail state) =
    (finish_queued_action a epoch m phase detail state).0
run_section a (completes epoch m result detail) = (complete_action a epoch m result detail).0
run_section a (cancels epoch m) = (cancel_action a epoch m).0

unfoldable pub run_sections : Actions → List Section → Actions
run_sections a [] = a
run_sections a (c ∷ cs) = run_sections (run_section a c) cs

-- setCurrent replaces the map when a session begins.
abbrev pub no_actions : Actions
no_actions = record { operations = []; next_channel = 0; closed = [] }

-- The sequence that a granted message holds: a press holds 1.
abbrev pub sequence_of : KeyMessage → ℕ
sequence_of m = if bytes_eq (phase_of m) press then 1 else m.action_sequence

-- The sequence of the operation `id` that is handed out, if any.
unfoldable pub given : Bytes → KeyMessage → Admission → List ℕ
given id m grants = if bytes_eq m.operation_id id then sequence_of m ∷ [] else []
given id m _ = []

unfoldable pub granted_by : Actions → Bytes → Section → List ℕ
granted_by a id (reserves epoch m) = given id m (reserve a epoch m).1
granted_by a id _ = []

-- All sequences of the operation `id` that a history hands out, the oldest first.
unfoldable pub granted : Actions → Bytes → List Section → List ℕ
granted a id [] = []
granted a id (c ∷ cs) = granted_by a id c ++ granted (run_section a c) id cs
