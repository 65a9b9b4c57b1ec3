-- ===== src/InputQueue/State.antt =====
-- The operations, the state and the steps of asyncText.
use phonepad.Base.{
  Bool, List, Option, [], false, if◌then◌else◌, length, ltb, none, not, some, true, ℕ, ◌%◌, ◌&&◌,
  ◌++◌, ◌+◌, ◌==◌, ◌^◌, ◌||◌, ◌∷◌,
}

pub data Kind : Type 0 where
  op_move op_button op_scroll op_text op_special op_combo op_gesture op_touch op_touch_cancel : Kind
  op_reset op_close op_literal op_literal_focus op_special_action op_combo_action : Kind
  op_move_normalized op_pointer_fence : Kind

-- Every other kind is dropped when its epoch is over.
abbrev pub is_control : Kind → Bool
is_control op_reset = true
is_control op_close = true
is_control _ = false

abbrev pub is_reset : Kind → Bool
is_reset op_reset = true
is_reset _ = false

-- What an operation carries besides its kind is a number here.
pub record AsyncOp : Type 0 where
  pub kind : Kind
  pub payload : ℕ
  pub epoch : ℕ

-- `sending` is the operation of the sender that holds enqueueMu, `pending_reset` that of the
-- goroutine of ResetContext that waits for enqueueMu, and `close_pending` says that finishClose has
-- yet to send. The WaitGroup counts the first two. `barrier` is a resetBarrier that is not nil, and
-- `dropped` remembers that it was CloseContext, and not Close, that closed the queue.
pub record Queue : Type 0 where
  pub fifo : List AsyncOp
  pub room : ℕ
  pub sending : Option AsyncOp
  pub pending_reset : Option AsyncOp
  pub running : Option AsyncOp
  pub epoch : ℕ
  pub closed : Bool
  pub close_pending : Bool
  pub barrier : Bool
  pub dropped : Bool

-- NewAsyncText
unfoldable pub new_async_text : ℕ → Queue
new_async_text buf = record {
  fifo = [];
  room = if ltb buf 1 then 1 else buf;
  sending = none;
  pending_reset = none;
  running = none;
  epoch = 0;
  closed = false;
  close_pending = false;
  barrier = false;
  dropped = false;
}

abbrev pub next_epoch : ℕ → ℕ
next_epoch e = (e + 1) % 2 ^ 64

abbrev pub is_none : Option AsyncOp → Bool
is_none none = true
is_none (some op) = false

-- A submission under both locks, from a caller that has an operation of some kind other than the
-- two controls. While enqueueMu is held or a barrier is up it waits, so nothing changes.
unfoldable pub submit : Queue → Kind → ℕ → Queue
submit q kind payload =
    if not (is_none q.sending) || q.closed || q.barrier || is_control kind
    then q
    else record q { sending = some (record { kind = kind; payload = payload; epoch = q.epoch }) }

-- The send on the channel, when there is room.
unfoldable pub send : Queue → Queue
send q = elim q.sending [
  | none ↦ q
  | some op ↦
      if ltb (length q.fifo) q.room
      then record q { fifo = q.fifo ++ op ∷ []; sending = none }
      else q
]

-- The sender's context ends first. A reset is sent without a context.
unfoldable pub give_up : Queue → Queue
give_up q = elim q.sending [
  | none ↦ q
  | some op ↦ if is_reset op.kind then q else record q { sending = none }
]

-- The short section of ResetContext. When the queue is closed or a barrier is up, nothing changes.
unfoldable pub reset : Queue → Queue
reset q = if q.closed || q.barrier then q else record q {
  epoch = next_epoch q.epoch;
  barrier = true;
  pending_reset = some (record { kind = op_reset; payload = 0; epoch = next_epoch q.epoch });
}

-- Its goroutine gets enqueueMu.
unfoldable pub lock_reset : Queue → Queue
lock_reset q = if not (is_none q.sending) then q else elim q.pending_reset [
  | none ↦ q
  | some op ↦ record q { sending = some op; pending_reset = none }
]

-- CloseContext if `invalidate`, close otherwise.
unfoldable pub close : Queue → Bool → Queue
close q invalidate = if q.closed then q else record q {
  closed = true;
  close_pending = true;
  epoch = if invalidate then next_epoch q.epoch else q.epoch;
  dropped = invalidate;
}

-- The send of finishClose, after the last sender.
unfoldable pub finish_close : Queue → Queue
finish_close q =
    let op : AsyncOp = record { kind = op_close; payload = 0; epoch = q.epoch } in
    if q.close_pending && is_none q.sending && is_none q.pending_reset && ltb (length q.fifo) q.room
    then record q { fifo = q.fifo ++ op ∷ []; close_pending = false }
    else q

-- The test at the head of the loop.
abbrev pub is_stale : AsyncOp → ℕ → Bool
is_stale op current = not (op.epoch == current) && not (is_control op.kind)

-- The operation that the worker would hand to the provider next, if it is idle.
unfoldable pub starts : Queue → Option AsyncOp
starts q = elim q.running [
  | some busy ↦ none
  | none ↦ elim q.fifo [ [] ↦ none | op ∷ rest ↦ if is_stale op q.epoch then none else some op ]
]

-- The worker receives an operation.
unfoldable pub take_next : Queue → Queue
take_next q = elim q.running [
  | some busy ↦ q
  | none ↦ elim q.fifo [
    | [] ↦ q
    | op ∷ rest ↦
        if is_stale op q.epoch
        then record q { fifo = rest }
        else record q { fifo = rest; running = some op }
  ]
]

-- The provider returns.
unfoldable pub finish : Queue → Queue
finish q = elim q.running [
  | none ↦ q
  | some op ↦
      if is_reset op.kind
      then record q { running = none; barrier = false }
      else record q { running = none }
]

pub data Step : Type 0 where
  submits : Kind → ℕ → Step
  sends : Step
  gives_up : Step
  resets : Step
  locks_reset : Step
  closes : Bool → Step
  finishes_close : Step
  takes_next : Step
  finishes : Step

unfoldable pub step : Queue → Step → Queue
step q (submits kind payload) = submit q kind payload
step q sends = send q
step q gives_up = give_up q
step q resets = reset q
step q locks_reset = lock_reset q
step q (closes invalidate) = close q invalidate
step q finishes_close = finish_close q
step q takes_next = take_next q
step q finishes = finish q

unfoldable pub run_steps : Queue → List Step → Queue
run_steps q [] = q
run_steps q (s ∷ ss) = run_steps (step q s) ss
