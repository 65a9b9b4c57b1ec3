-- ===== src/Actions/Grants.antt =====
-- Which sequences are handed out.
use phonepad.Base.{
  Bool-cases, Bytes, List, Option-cases, [], arith, bytes_eq, bytes_eq_iff, false, get, get-put_if,
  if◌then◌else◌, inl, inr, leb, length, none, put, refl, some, suc, sym, zero, ℕ, ◌++◌, ◌+◌, ◌∙◌,
  ◌∷◌, ◌≡◌, ◌⊎◌,
}
use phonepad.Actions.Operations.{
  ActionOperation, ActionState, Actions, KeyMessage, max_action_operations, phase_of, press,
}
use phonepad.Actions.History.{
  Section, cancels, completes, finishes, given, granted, granted_by, no_actions, reserves,
  run_section, run_sections, sequence_of,
}
use phonepad.Actions.Sections.{cancel_action, complete_action, finish_queued_action}
use phonepad.Actions.Reserve.{
  grants, known_operation, new_operation, press_again, repeat_next, repeat_past, reserve,
  unknown_operation,
}

-- The next sequence of an operation; 1 for one that there is not.
unfoldable pub next_of : List (Bytes × ActionOperation) → Bytes → ℕ
next_of ops id = elim (get id ops) [ none ↦ 1 | some op ↦ op.next_sequence ]

-- `a, a + 1, …, a + n - 1`
unfoldable pub count_from : ℕ → ℕ → List ℕ
count_from a zero = []
count_from a (suc n) = a ∷ count_from (suc a) n

next_of-some :
    (ops : List (Bytes × ActionOperation)) (k : Bytes) (op : ActionOperation)
    → get k ops ≡ some op
    → next_of ops k ≡ op.next_sequence
unfolding next_of
next_of-some ops k op e = rw (e, next_of) refl

pub next_of-none :
    (ops : List (Bytes × ActionOperation)) (k : Bytes) → get k ops ≡ none → next_of ops k ≡ 1
unfolding next_of
next_of-none ops k e = rw (e, next_of) refl

next_of-put :
    (ops : List (Bytes × ActionOperation)) (k id : Bytes) (op : ActionOperation)
    → next_of (put k op ops) id ≡ (if bytes_eq k id then op.next_sequence else next_of ops id)
unfolding next_of
next_of-put ops k id op = ground (arith, get-put_if id k op ops)

next_of-kept :
    (ops : List (Bytes × ActionOperation)) (k id : Bytes) (op op' : ActionOperation)
    → get k ops ≡ some op
    → op'.next_sequence ≡ op.next_sequence
    → next_of (put k op' ops) id ≡ next_of ops id
unfolding next_of
next_of-kept ops k id op op' e n = ground (arith, get-put_if id k op' ops, bytes_eq_iff k id)

next_of-finish_queued_action :
    (a : Actions) (id epoch : Bytes) (m : KeyMessage) (phase detail : Bytes) (state : ActionState)
    → next_of (finish_queued_action a epoch m phase detail state).0.operations id
      ≡ next_of a.operations id
unfolding finish_queued_action
next_of-finish_queued_action a id epoch m phase detail state =
    elim (Option-cases (get m.operation_id a.operations)) [
      | inl e ↦ rw (e, finish_queued_action) refl
      | inr (op, e) ↦
          rw (e, finish_queued_action)
            (next_of-kept a.operations m.operation_id id op _ e (ground arith))
    ]

next_of-complete_action :
    (a : Actions) (id epoch : Bytes) (m : KeyMessage) (result : ActionState) (detail : Bytes)
    → next_of (complete_action a epoch m result detail).0.operations id ≡ next_of a.operations id
unfolding complete_action
next_of-complete_action a id epoch m result detail =
    elim (Option-cases (get m.operation_id a.operations)) [
      | inl e ↦ rw (e, complete_action) refl
      | inr (op, e) ↦ elim (Bool-cases (bytes_eq op.session_epoch epoch)) [
        | inl f ↦
            rw (e, f, complete_action)
              (next_of-kept a.operations m.operation_id id op _ e (ground arith))
        | inr f ↦ rw (e, f, complete_action) refl
      ]
    ]

next_of-cancel_action :
    (a : Actions) (id epoch : Bytes) (m : KeyMessage)
    → next_of (cancel_action a epoch m).0.operations id ≡ next_of a.operations id
unfolding cancel_action
next_of-cancel_action a id epoch m = elim (Option-cases (get m.operation_id a.operations)) [
  | inl e ↦ rw (e, cancel_action) refl
  | inr (op, e) ↦ elim (Bool-cases (bytes_eq op.session_epoch epoch)) [
    | inl f ↦ elim (Bool-cases op.is_cancelled) [
      | inl g ↦ rw (e, f, g, cancel_action) refl
      | inr g ↦
          rw (e, f, g, cancel_action)
            (next_of-kept a.operations m.operation_id id op _ e (ground arith))
    ]
    | inr f ↦ rw (e, f, cancel_action) refl
  ]
]

-- What one section does to an operation: it hands out nothing, or the next sequence.
abbrev Advances : ℕ → ℕ → List ℕ → Type 0
Advances n n' out = ((out ≡ []) × (n' ≡ n)) ⊎ ((out ≡ n ∷ []) × (n' ≡ suc n))

granted-Advances :
    (ops : List (Bytes × ActionOperation)) (id : Bytes) (m : KeyMessage) (op : ActionOperation)
    → sequence_of m ≡ next_of ops m.operation_id
    → op.next_sequence ≡ suc (sequence_of m)
    → Advances (next_of ops id) (next_of (put m.operation_id op ops) id) (given id m grants)
unfolding given
granted-Advances ops id m op q n =
    ground (arith, next_of-put ops m.operation_id id op, bytes_eq_iff m.operation_id id)

repeat_next-Advances :
    (a : Actions) (id epoch : Bytes) (op : ActionOperation) (m : KeyMessage)
    → get m.operation_id a.operations ≡ some op
    → bytes_eq (phase_of m) press ≡ false
    → m.action_sequence ≡ op.next_sequence
    → Advances
        (next_of a.operations id)
        (next_of (repeat_next a op epoch m).0.operations id)
        (given id m (repeat_next a op epoch m).1)
unfolding repeat_next given next_of
repeat_next-Advances a id epoch op m e f n =
    elim (Bool-cases (leb max_action_operations op.repeat_count)) [
      | inl g ↦
          rw (g, repeat_next) (inl (refl, next_of-kept a.operations m.operation_id id op _ e refl))
      | inr g ↦
          rw (g, repeat_next)
            (granted-Advances a.operations id m _
              (rw f (n ∙ sym (next_of-some a.operations m.operation_id op e))) (rw (f, n) refl))
    ]

known_operation-Advances :
    (a : Actions) (id epoch : Bytes) (op : ActionOperation) (m : KeyMessage)
    → get m.operation_id a.operations ≡ some op
    → Advances
        (next_of a.operations id)
        (next_of (known_operation a op epoch m).0.operations id)
        (given id m (known_operation a op epoch m).1)
unfolding known_operation press_again repeat_past given
known_operation-Advances a id epoch op m e = ground (arith, repeat_next-Advances a id epoch op m e)

unknown_operation-Advances :
    (a : Actions) (id epoch : Bytes) (m : KeyMessage)
    → get m.operation_id a.operations ≡ none
    → Advances
        (next_of a.operations id)
        (next_of (unknown_operation a epoch m).0.operations id)
        (given id m (unknown_operation a epoch m).1)
unfolding unknown_operation new_operation given
unknown_operation-Advances a id epoch m e = elim (Bool-cases (bytes_eq (phase_of m) press)) [
  | inl f ↦ ground (
    arith,
    granted-Advances a.operations id m (new_operation epoch m a.next_channel)
        (rw f (sym (next_of-none a.operations m.operation_id e))) (rw f refl),
  )
  | inr f ↦ rw (f, unknown_operation) (inl (refl, refl))
]

reserve-Advances :
    (a : Actions) (id epoch : Bytes) (m : KeyMessage)
    → Advances
        (next_of a.operations id)
        (next_of (reserve a epoch m).0.operations id)
        (given id m (reserve a epoch m).1)
unfolding reserve
reserve-Advances a id epoch m = elim (Option-cases (get m.operation_id a.operations)) [
  | inl e ↦ rw (e, reserve) (unknown_operation-Advances a id epoch m e)
  | inr (op, e) ↦ rw (e, reserve) (known_operation-Advances a id epoch op m e)
]

section_grants :
    (a : Actions) (id : Bytes) (c : Section)
    → Advances
        (next_of a.operations id)
        (next_of (run_section a c).operations id)
        (granted_by a id c)
unfolding granted_by run_section
section_grants a id (reserves epoch m) = reserve-Advances a id epoch m
section_grants a id (finishes epoch m phase detail state) =
    inl (refl, next_of-finish_queued_action a id epoch m phase detail state)
section_grants a id (completes epoch m result detail) =
    inl (refl, next_of-complete_action a id epoch m result detail)
section_grants a id (cancels epoch m) = inl (refl, next_of-cancel_action a id epoch m)

-- A run of numbers from `n'` after what one section handed out is a run from `n`.
grants_step :
    (n n' : ℕ) (out rest : List ℕ) (last : ℕ)
    → Advances n n' out
    → rest ≡ count_from n' (length rest)
    → last ≡ n' + length rest
    → (out ++ rest ≡ count_from n (length (out ++ rest))) × (last ≡ n + length (out ++ rest))
unfolding count_from
grants_step n n' out rest last (inl (e, f)) r l = rw (e) (ground (arith, f, r, l))
grants_step n n' out rest last (inr (e, f)) r l = rw (e) (ground (arith, f, r, l))

-- The sequences that a history hands out go on, one by one, from the next sequence of the operation.
pub granted_from :
    (a : Actions) (id : Bytes) (cs : List Section)
    → let n = length (granted a id cs) in
      (granted a id cs ≡ count_from (next_of a.operations id) n)
      × (next_of (run_sections a cs).operations id ≡ next_of a.operations id + n)
unfolding granted run_sections count_from
granted_from a id [] = (refl, omega arith)
granted_from a id (c ∷ cs) =
    let (r, l) = granted_from (run_section a c) id cs in
    grants_step _ _ _ _ _ (section_grants a id c) r l

-- However the sections of presses, repeats, cancellations and results interleave in a session, the
-- sequences of one operation are handed out in the order 1, 2, 3, …, each of them once: a press or
-- repeat that is sent again, or by two goroutines at once, is not granted a sequence twice.
pub no_actions-grants :
    (id : Bytes) (cs : List Section)
    → granted no_actions id cs ≡ count_from 1 (length (granted no_actions id cs))
unfolding next_of get
no_actions-grants id cs = (granted_from no_actions id cs).0
