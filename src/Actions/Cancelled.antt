-- ===== src/Actions/Cancelled.antt =====
-- What a cancellation promises.
use phonepad.Base.{
  Bool, Bool-cases, Bytes, List, Option-cases, [], arith, bytes_eq, bytes_eq_iff, bytes_eq_refl,
  false, get, get-put, get-put_if, inl, inr, none, not, put, put_at, refl, some, suc, sym, true,
  ◌&&◌, ◌∷◌, ◌≡◌,
}
use phonepad.Actions.Operations.{ActionOperation, ActionState, Actions, KeyMessage, rejected}
use phonepad.Actions.History.{
  Section, cancels, completes, finishes, reserves, run_section, run_sections,
}
use phonepad.Actions.Sections.{
  admit_action_provider, cancel_action, complete_action, finish_queued_action,
}
use phonepad.Actions.Reserve.{
  known_operation, new_operation, press_again, repeat_next, repeat_past, reserve, stopped,
  unknown_operation,
}

-- The operation is known, cancelled and inactive.
unfoldable pub is_over : List (Bytes × ActionOperation) → Bytes → Bool
is_over ops id = elim (get id ops) [ none ↦ false | some op ↦ op.is_cancelled && not op.active ]

is_over-put :
    (ops : List (Bytes × ActionOperation)) (k id : Bytes) (op op' : ActionOperation)
    → get k ops ≡ some op
    → (op.is_cancelled && not op.active ≡ true → op'.is_cancelled && not op'.active ≡ true)
    → is_over ops id ≡ true
    → is_over (put k op' ops) id ≡ true
unfolding is_over
is_over-put ops k id op op' e f h = ground (arith, get-put_if id k op' ops, bytes_eq_iff k id)

is_over-put_new :
    (ops : List (Bytes × ActionOperation)) (k id : Bytes) (op' : ActionOperation)
    → get k ops ≡ none
    → is_over ops id ≡ true
    → is_over (put k op' ops) id ≡ true
unfolding is_over
is_over-put_new ops k id op' e h = ground (arith, get-put_if id k op' ops, bytes_eq_iff k id)

is_over-finish_queued_action :
    (a : Actions) (id epoch : Bytes) (m : KeyMessage) (phase detail : Bytes) (state : ActionState)
    → is_over a.operations id ≡ true
    → is_over (finish_queued_action a epoch m phase detail state).0.operations id ≡ true
unfolding finish_queued_action
is_over-finish_queued_action a id epoch m phase detail state h =
    elim (Option-cases (get m.operation_id a.operations)) [
      | inl e ↦ rw (e, finish_queued_action) h
      | inr (op, e) ↦
          rw (e, finish_queued_action)
            (is_over-put a.operations m.operation_id id op _ e (ground arith) h)
    ]

is_over-complete_action :
    (a : Actions) (id epoch : Bytes) (m : KeyMessage) (result : ActionState) (detail : Bytes)
    → is_over a.operations id ≡ true
    → is_over (complete_action a epoch m result detail).0.operations id ≡ true
unfolding complete_action
is_over-complete_action a id epoch m result detail h =
    elim (Option-cases (get m.operation_id a.operations)) [
      | inl e ↦ rw (e, complete_action) h
      | inr (op, e) ↦ elim (Bool-cases (bytes_eq op.session_epoch epoch)) [
        | inl f ↦
            rw (e, f, complete_action)
              (is_over-put a.operations m.operation_id id op _ e (ground arith) h)
        | inr f ↦ rw (e, f, complete_action) h
      ]
    ]

is_over-cancel_later :
    (a : Actions) (id epoch : Bytes) (m : KeyMessage)
    → is_over a.operations id ≡ true
    → is_over (cancel_action a epoch m).0.operations id ≡ true
unfolding cancel_action
is_over-cancel_later a id epoch m h = elim (Option-cases (get m.operation_id a.operations)) [
  | inl e ↦ rw (e, cancel_action) h
  | inr (op, e) ↦ elim (Bool-cases (bytes_eq op.session_epoch epoch)) [
    | inl f ↦ elim (Bool-cases op.is_cancelled) [
      | inl g ↦ rw (e, f, g, cancel_action) h
      | inr g ↦
          rw (e, f, g, cancel_action)
            (is_over-put a.operations m.operation_id id op _ e (ground arith) h)
    ]
    | inr f ↦ rw (e, f, cancel_action) h
  ]
]

-- An operation that is over takes no repeat.
is_over-known_operation :
    (a : Actions) (id epoch : Bytes) (op : ActionOperation) (m : KeyMessage)
    → get m.operation_id a.operations ≡ some op
    → is_over a.operations id ≡ true
    → is_over (known_operation a op epoch m).0.operations id ≡ true
unfolding known_operation press_again repeat_past repeat_next
is_over-known_operation a id epoch op m e h = ground (
  arith,
  is_over-put a.operations m.operation_id id op (record op { active = false; state = rejected }) e
      (ground arith) h,
  λ (off : op.active ≡ true).
      is_over-put a.operations m.operation_id id op
        (record op {
          repeat_count = suc op.repeat_count;
          next_sequence = suc op.next_sequence;
          sequence_done = put_at m.action_sequence a.next_channel op.sequence_done;
        })
        e (ground arith) h,
)

is_over-unknown_operation :
    (a : Actions) (id epoch : Bytes) (m : KeyMessage)
    → get m.operation_id a.operations ≡ none
    → is_over a.operations id ≡ true
    → is_over (unknown_operation a epoch m).0.operations id ≡ true
unfolding unknown_operation
is_over-unknown_operation a id epoch m e h = ground (
  arith,
  is_over-put_new a.operations m.operation_id id (new_operation epoch m a.next_channel) e h,
)

is_over-reserve :
    (a : Actions) (id epoch : Bytes) (m : KeyMessage)
    → is_over a.operations id ≡ true
    → is_over (reserve a epoch m).0.operations id ≡ true
unfolding reserve
is_over-reserve a id epoch m h = elim (Option-cases (get m.operation_id a.operations)) [
  | inl e ↦ rw (e, reserve) (is_over-unknown_operation a id epoch m e h)
  | inr (op, e) ↦ rw (e, reserve) (is_over-known_operation a id epoch op m e h)
]

is_over-run_section :
    (a : Actions) (id : Bytes) (c : Section)
    → is_over a.operations id ≡ true
    → is_over (run_section a c).operations id ≡ true
unfolding run_section
is_over-run_section a id (reserves epoch m) h = is_over-reserve a id epoch m h
is_over-run_section a id (finishes epoch m phase detail state) h =
    is_over-finish_queued_action a id epoch m phase detail state h
is_over-run_section a id (completes epoch m result detail) h =
    is_over-complete_action a id epoch m result detail h
is_over-run_section a id (cancels epoch m) h = is_over-cancel_later a id epoch m h

is_over-run_sections :
    (a : Actions) (id : Bytes) (cs : List Section)
    → is_over a.operations id ≡ true
    → is_over (run_sections a cs).operations id ≡ true
unfolding run_sections
is_over-run_sections a id [] h = h
is_over-run_sections a id (c ∷ cs) h =
    is_over-run_sections (run_section a c) id cs (is_over-run_section a id c h)

over_refuses :
    (a : Actions) (id : Bytes)
    → is_over a.operations id ≡ true
    → (admit_action_provider a id ≡ false) × (stopped a id ≡ true)
unfolding is_over admit_action_provider stopped
over_refuses a id h = ground arith

is_over-cancel_action :
    (a : Actions) (epoch : Bytes) (m : KeyMessage) (op : ActionOperation)
    → get m.operation_id a.operations ≡ some op
    → op.session_epoch ≡ epoch
    → op.is_cancelled ≡ false
    → is_over (cancel_action a epoch m).0.operations m.operation_id ≡ true
unfolding cancel_action is_over
is_over-cancel_action a epoch m op e s c =
    rw (e, sym s, bytes_eq_refl op.session_epoch, c, cancel_action, is_over)
      (rw (get-put m.operation_id _ a.operations) refl)

-- After the first cancellation of an operation of the session, no matter what sections follow, no goroutine
-- is admitted to call the provider for it, and a repeat that waited for its turn finds it stopped.
pub cancel_stops :
    (a : Actions) (epoch : Bytes) (m : KeyMessage) (op : ActionOperation) (cs : List Section)
    → get m.operation_id a.operations ≡ some op
    → op.session_epoch ≡ epoch
    → op.is_cancelled ≡ false
    → let a' = run_sections (cancel_action a epoch m).0 cs in
      (admit_action_provider a' m.operation_id ≡ false) × (stopped a' m.operation_id ≡ true)
cancel_stops a epoch m op cs e s c =
    over_refuses _ m.operation_id
      (is_over-run_sections _ m.operation_id cs (is_over-cancel_action a epoch m op e s c))
