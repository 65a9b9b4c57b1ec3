-- ===== src/Actions/Bounds.antt =====
-- How many operations there are, and how many sequences each of them hands out.
use phonepad.Base.{
  Bool-cases, Bytes, List, Option-cases, [], arith, bytes_eq, get, get-put_cases, inl, inr, leb,
  length, length-put, length-put_known, put, refl, some, subst, sym, ◌+◌, ◌<◌, ◌∷◌, ◌≡◌, ◌≤◌, ◌⊎◌,
}
use phonepad.Actions.Operations.{
  ActionOperation, ActionState, Actions, KeyMessage, max_action_operations,
}
use phonepad.Actions.History.{
  Section, cancels, completes, finishes, granted, no_actions, reserves, run_section, run_sections,
}
use phonepad.Actions.Sections.{cancel_action, complete_action, finish_queued_action}
use phonepad.Actions.Grants.{granted_from, next_of, next_of-none}
use phonepad.Actions.Reserve.{
  known_operation, new_operation, press_again, repeat_next, repeat_past, reserve, unknown_operation,
}

abbrev IsLimited : ActionOperation → Type 0
IsLimited op = (op.next_sequence ≡ op.repeat_count + 2) × (op.repeat_count ≤ max_action_operations)

record IsBounded (ops : List (Bytes × ActionOperation)) : Type 0 where
  few : length ops ≤ max_action_operations
  limited : (id : Bytes) (op : ActionOperation) → get id ops ≡ some op → IsLimited op

IsBounded-put :
    (ops : List (Bytes × ActionOperation)) (k : Bytes) (op op' : ActionOperation)
    → get k ops ≡ some op
    → (IsLimited op → IsLimited op')
    → IsBounded ops
    → IsBounded (put k op' ops)
IsBounded-put ops k op op' e f h = record {
  few = omega (arith, length-put_known k op' op ops e, h.few);
  limited = λ id o g. elim (get-put_cases id k op' o ops g) [
    | inl (same, q) ↦ subst IsLimited q (f (h.limited k op e))
    | inr old ↦ h.limited id o old
  ];
}

IsBounded-put_new :
    (ops : List (Bytes × ActionOperation)) (k : Bytes) (op : ActionOperation)
    → length ops < max_action_operations
    → IsLimited op
    → IsBounded ops
    → IsBounded (put k op ops)
IsBounded-put_new ops k op room l h = record {
  few = omega (arith, length-put k op ops, room);
  limited = λ id o g. elim (get-put_cases id k op o ops g) [
    | inl (same, q) ↦ subst IsLimited q l
    | inr old ↦ h.limited id o old
  ];
}

finish_queued_action-IsBounded :
    (a : Actions) (epoch : Bytes) (m : KeyMessage) (phase detail : Bytes) (state : ActionState)
    → IsBounded a.operations
    → IsBounded (finish_queued_action a epoch m phase detail state).0.operations
unfolding finish_queued_action
finish_queued_action-IsBounded a epoch m phase detail state h =
    elim (Option-cases (get m.operation_id a.operations)) [
      | inl e ↦ rw (e, finish_queued_action) h
      | inr (op, e) ↦
          rw (e, finish_queued_action)
            (IsBounded-put a.operations m.operation_id op _ e (λ l. ground (arith, l)) h)
    ]

complete_action-IsBounded :
    (a : Actions) (epoch : Bytes) (m : KeyMessage) (result : ActionState) (detail : Bytes)
    → IsBounded a.operations
    → IsBounded (complete_action a epoch m result detail).0.operations
unfolding complete_action
complete_action-IsBounded a epoch m result detail h =
    elim (Option-cases (get m.operation_id a.operations)) [
      | inl e ↦ rw (e, complete_action) h
      | inr (op, e) ↦ elim (Bool-cases (bytes_eq op.session_epoch epoch)) [
        | inl f ↦
            rw (e, f, complete_action)
              (IsBounded-put a.operations m.operation_id op _ e (λ l. ground (arith, l)) h)
        | inr f ↦ rw (e, f, complete_action) h
      ]
    ]

cancel_action-IsBounded :
    (a : Actions) (epoch : Bytes) (m : KeyMessage)
    → IsBounded a.operations
    → IsBounded (cancel_action a epoch m).0.operations
unfolding cancel_action
cancel_action-IsBounded a epoch m h = elim (Option-cases (get m.operation_id a.operations)) [
  | inl e ↦ rw (e, cancel_action) h
  | inr (op, e) ↦ elim (Bool-cases (bytes_eq op.session_epoch epoch)) [
    | inl f ↦ elim (Bool-cases op.is_cancelled) [
      | inl g ↦ rw (e, f, g, cancel_action) h
      | inr g ↦
          rw (e, f, g, cancel_action)
            (IsBounded-put a.operations m.operation_id op _ e (λ l. ground (arith, l)) h)
    ]
    | inr f ↦ rw (e, f, cancel_action) h
  ]
]

repeat_next-IsBounded :
    (a : Actions) (epoch : Bytes) (op : ActionOperation) (m : KeyMessage)
    → get m.operation_id a.operations ≡ some op
    → IsBounded a.operations
    → IsBounded (repeat_next a op epoch m).0.operations
unfolding repeat_next
repeat_next-IsBounded a epoch op m e h =
    elim (Bool-cases (leb max_action_operations op.repeat_count)) [
      | inl f ↦ rw (f, repeat_next) (IsBounded-put a.operations m.operation_id op _ e (λ l. l) h)
      | inr f ↦
          rw (f, repeat_next)
            (IsBounded-put a.operations m.operation_id op _ e (λ l. ground (arith, l, f)) h)
    ]

-- Only the last case of a known operation changes something.
known_operation-cases :
    (a : Actions) (epoch : Bytes) (op : ActionOperation) (m : KeyMessage)
    → ((known_operation a op epoch m).0 ≡ a)
      ⊎ ((known_operation a op epoch m).0 ≡ (repeat_next a op epoch m).0)
unfolding known_operation press_again repeat_past
known_operation-cases a epoch op m = ground arith

known_operation-IsBounded :
    (a : Actions) (epoch : Bytes) (op : ActionOperation) (m : KeyMessage)
    → get m.operation_id a.operations ≡ some op
    → IsBounded a.operations
    → IsBounded (known_operation a op epoch m).0.operations
known_operation-IsBounded a epoch op m e h = elim (known_operation-cases a epoch op m) [
  | inl same ↦ subst (λ x. IsBounded x.operations) (sym same) h
  | inr next ↦
      subst (λ x. IsBounded x.operations) (sym next) (repeat_next-IsBounded a epoch op m e h)
]

unknown_operation-cases :
    (a : Actions) (epoch : Bytes) (m : KeyMessage)
    → ((unknown_operation a epoch m).0 ≡ a)
      ⊎ ((length a.operations < max_action_operations)
          × ((unknown_operation a epoch m).0.operations
              ≡ put m.operation_id (new_operation epoch m a.next_channel) a.operations))
unfolding unknown_operation
unknown_operation-cases a epoch m = ground arith

reserve-IsBounded :
    (a : Actions) (epoch : Bytes) (m : KeyMessage)
    → IsBounded a.operations
    → IsBounded (reserve a epoch m).0.operations
unfolding reserve new_operation
reserve-IsBounded a epoch m h = elim (Option-cases (get m.operation_id a.operations)) [
  | inr (op, e) ↦ rw (e, reserve) (known_operation-IsBounded a epoch op m e h)
  | inl e ↦
      rw (e, reserve)
        (elim (unknown_operation-cases a epoch m) [
          | inl same ↦ subst (λ x. IsBounded x.operations) (sym same) h
          | inr (room, next) ↦
              subst IsBounded (sym next)
                (IsBounded-put_new a.operations m.operation_id _ room (omega arith, omega arith) h)
        ])
]

run_section-IsBounded :
    (a : Actions) (c : Section) → IsBounded a.operations → IsBounded (run_section a c).operations
unfolding run_section
run_section-IsBounded a (reserves epoch m) h = reserve-IsBounded a epoch m h
run_section-IsBounded a (finishes epoch m phase detail state) h =
    finish_queued_action-IsBounded a epoch m phase detail state h
run_section-IsBounded a (completes epoch m result detail) h =
    complete_action-IsBounded a epoch m result detail h
run_section-IsBounded a (cancels epoch m) h = cancel_action-IsBounded a epoch m h

run_sections-IsBounded :
    (a : Actions) (cs : List Section)
    → IsBounded a.operations
    → IsBounded (run_sections a cs).operations
unfolding run_sections
run_sections-IsBounded a [] h = h
run_sections-IsBounded a (c ∷ cs) h =
    run_sections-IsBounded (run_section a c) cs (run_section-IsBounded a c h)

next_of-IsBounded :
    (ops : List (Bytes × ActionOperation)) (id : Bytes) → IsBounded ops → next_of ops id ≤ 130
unfolding next_of
next_of-IsBounded ops id h = elim (Option-cases (get id ops)) [
  | inl e ↦ ground (arith, e)
  | inr (op, e) ↦ ground (arith, e, h.limited id op e)
]

-- However the sections interleave in a session, there are at most 128 operations, and each of them
-- hands out at most 129 sequences: its press and 128 repeats.
pub no_actions-bounded :
    (id : Bytes) (cs : List Section)
    → (length (run_sections no_actions cs).operations ≤ 128)
      × (length (granted no_actions id cs) ≤ 129)
unfolding get
no_actions-bounded id cs =
    let empty : IsBounded [] = record { few = omega arith; limited = λ i op e. ground arith } in
    let h = run_sections-IsBounded no_actions cs empty in
    (
      h.few,
      omega (
        arith,
        next_of-IsBounded _ id h,
        (granted_from no_actions id cs).1,
        next_of-none [] id refl,
      ),
    )
