-- ===== src/InputQueue/Invariant.antt =====
-- What is in the queue is of an epoch that is over once a reset is pending.
use phonepad.Base.{
  All, All-append, Bool, Bool-cases, List, Option, Option-cases, [], arith, false, if◌then◌else◌,
  inl, inr, length, ltb, none, not, refl, some, subst, suc, sym, true, ℕ, ◌&&◌, ◌++◌, ◌+◌, ◌<◌, ◌^◌,
  ◌||◌, ◌∷◌, ◌≡◌, ◌≤◌, ◌⊎◌,
}
use phonepad.InputQueue.State.{
  AsyncOp, Kind, Queue, Step, close, closes, finish, finish_close, finishes, finishes_close,
  give_up, gives_up, is_control, is_none, is_reset, is_stale, lock_reset, locks_reset, next_epoch,
  reset, resets, run_steps, send, sends, step, submit, submits, take_next, takes_next,
}

-- An operation in the queue is a control, or not younger than the queue, and of an epoch that is
-- over once the queue is quiet.
abbrev pub IsBehind : ℕ → Bool → AsyncOp → Type 0
IsBehind epoch quiet op =
    is_control op.kind ≡ false → (op.epoch ≤ epoch) × (quiet ≡ true → op.epoch < epoch)

abbrev pub IsBehindSender : ℕ → Bool → Option AsyncOp → Type 0
IsBehindSender epoch quiet none = Unit {0}
IsBehindSender epoch quiet (some op) = IsBehind epoch quiet op

abbrev pub is_quiet : Queue → Bool
is_quiet q = q.barrier || q.dropped

-- After `n` steps.
pub record IsQueue (n : ℕ) (q : Queue) : Type 0 where
  pub young : q.epoch ≤ n
  pub queued : All (IsBehind q.epoch (is_quiet q)) q.fifo
  pub sender : IsBehindSender q.epoch (is_quiet q) q.sending
  pub reset_kind : (op : AsyncOp) → q.pending_reset ≡ some op → is_control op.kind ≡ true
  pub dropped_closed : q.dropped ≡ true → q.closed ≡ true

-- A later epoch, or a queue that is no quieter, leaves an operation behind.
All-later :
    (e : ℕ) (b b' : Bool) (ops : List AsyncOp)
    → (b' ≡ true → b ≡ true)
    → All (IsBehind e b) ops
    → All (IsBehind e b') ops
All-later e b b' [] f h = tt
All-later e b b' (op ∷ ops) f h = (ground (arith, h.0), All-later e b b' ops f h.1)

All-next :
    (e : ℕ) (b b' : Bool) (ops : List AsyncOp)
    → All (IsBehind e b) ops
    → All (IsBehind (suc e) b') ops
All-next e b b' [] h = tt
All-next e b b' (op ∷ ops) h = (ground (arith, h.0), All-next e b b' ops h.1)

later : (n : ℕ) (q : Queue) → IsQueue n q → IsQueue (suc n) q
later n q h = record {
  young = omega (arith, h.young);
  queued = h.queued;
  sender = h.sender;
  reset_kind = h.reset_kind;
  dropped_closed = h.dropped_closed;
}

submit-IsQueue :
    (n : ℕ) (q : Queue) (kind : Kind) (payload : ℕ)
    → IsQueue n q
    → IsQueue (suc n) (submit q kind payload)
unfolding submit
submit-IsQueue n q kind payload h =
    elim (Bool-cases (not (is_none q.sending) || q.closed || q.barrier || is_control kind)) [
      | inl e ↦ rw (e, submit) (later n q h)
      | inr e ↦
          rw (e, submit)
            (record {
              young = omega (arith, h.young);
              queued = h.queued;
              sender = ground (arith, e, h.dropped_closed);
              reset_kind = h.reset_kind;
              dropped_closed = h.dropped_closed;
            })
    ]

All-end :
    (e : ℕ) (b : Bool) (ops : List AsyncOp) (op : AsyncOp)
    → All (IsBehind e b) ops
    → IsBehind e b op
    → All (IsBehind e b) (ops ++ op ∷ [])
All-end e b ops op h k = All-append (IsBehind e b) ops op h k

send-IsQueue : (n : ℕ) (q : Queue) → IsQueue n q → IsQueue (suc n) (send q)
unfolding send
send-IsQueue n q h = elim (Option-cases q.sending) [
  | inl e ↦ rw (e, send) (later n q h)
  | inr (op, e) ↦ elim (Bool-cases (ltb (length q.fifo) q.room)) [
    | inl f ↦
        rw (e, f, send)
          (record {
            young = omega (arith, h.young);
            queued =
                All-end q.epoch (is_quiet q) q.fifo op h.queued
                  (subst (IsBehindSender q.epoch (is_quiet q)) e h.sender);
            sender = tt;
            reset_kind = h.reset_kind;
            dropped_closed = h.dropped_closed;
          })
    | inr f ↦ rw (e, f, send) (later n q h)
  ]
]

without_sender : (n : ℕ) (q : Queue) → IsQueue n q → IsQueue (suc n) (record q { sending = none })
without_sender n q h = record {
  young = omega (arith, h.young);
  queued = h.queued;
  sender = tt;
  reset_kind = h.reset_kind;
  dropped_closed = h.dropped_closed;
}

give_up-IsQueue : (n : ℕ) (q : Queue) → IsQueue n q → IsQueue (suc n) (give_up q)
unfolding give_up
give_up-IsQueue n q h = elim (Option-cases q.sending) [
  | inl e ↦ rw (e, give_up) (later n q h)
  | inr (op, e) ↦ elim (Bool-cases (is_reset op.kind)) [
    | inl f ↦ rw (e, f, give_up) (later n q h)
    | inr f ↦ rw (e, f, give_up) (without_sender n q h)
  ]
]

sender-next :
    (e : ℕ) (b b' : Bool) (o : Option AsyncOp) → IsBehindSender e b o → IsBehindSender (suc e) b' o
sender-next e b b' none h = tt
sender-next e b b' (some op) h = ground (arith, h)

sender-later :
    (e : ℕ) (b b' : Bool) (o : Option AsyncOp)
    → (b' ≡ true → b ≡ true)
    → IsBehindSender e b o
    → IsBehindSender e b' o
sender-later e b b' none f h = tt
sender-later e b b' (some op) f h = ground (arith, h)

-- The epoch does not wrap in so few steps.
no_wrap : (e n : ℕ) → e ≤ n → suc n < 2 ^ 64 → next_epoch e ≡ suc e
no_wrap e n h few = omega (arith, h, few)

reset-IsQueue : (n : ℕ) (q : Queue) → suc n < 2 ^ 64 → IsQueue n q → IsQueue (suc n) (reset q)
unfolding reset
reset-IsQueue n q few h = elim (Bool-cases (q.closed || q.barrier)) [
  | inl e ↦ rw (e, reset) (later n q h)
  | inr e ↦
      rw (e, reset, no_wrap q.epoch n h.young few)
        (record {
          young = omega (arith, h.young);
          queued = All-next q.epoch (is_quiet q) true q.fifo h.queued;
          sender = sender-next q.epoch (is_quiet q) true q.sending h.sender;
          reset_kind = λ op k. ground arith;
          dropped_closed = h.dropped_closed;
        })
]

lock_reset-IsQueue : (n : ℕ) (q : Queue) → IsQueue n q → IsQueue (suc n) (lock_reset q)
unfolding lock_reset
lock_reset-IsQueue n q h = elim (Bool-cases (is_none q.sending)) [
  | inr e ↦ rw (e, lock_reset) (later n q h)
  | inl e ↦ elim (Option-cases q.pending_reset) [
    | inl f ↦ rw (e, f, lock_reset) (later n q h)
    | inr (op, f) ↦
        rw (e, f, lock_reset)
          (record {
            young = omega (arith, h.young);
            queued = h.queued;
            sender = ground (arith, f, h.reset_kind op f);
            reset_kind = λ o k. ground arith;
            dropped_closed = h.dropped_closed;
          })
  ]
]

if_true : (b : Bool) (x y : Queue) → b ≡ true → (if b then x else y) ≡ x
if_true b x y e = rw e refl

close-IsQueue :
    (n : ℕ) (q : Queue) (invalidate : Bool)
    → suc n < 2 ^ 64
    → IsQueue n q
    → IsQueue (suc n) (close q invalidate)
unfolding close
close-IsQueue n q invalidate few h = elim (Bool-cases q.closed) [
  | inl e ↦ subst (IsQueue (suc n)) (sym (if_true q.closed q _ e)) (later n q h)
  | inr e ↦ rw (e, close) (closing invalidate)
]
  where
    closing :
        (invalidate : Bool)
        → IsQueue (suc n) (record q {
          closed = true;
          close_pending = true;
          epoch = if invalidate then next_epoch q.epoch else q.epoch;
          dropped = invalidate;
        })
    closing true = rw (no_wrap q.epoch n h.young few) (record {
      young = omega (arith, h.young);
      queued = All-next q.epoch (is_quiet q) (q.barrier || true) q.fifo h.queued;
      sender = sender-next q.epoch (is_quiet q) (q.barrier || true) q.sending h.sender;
      reset_kind = h.reset_kind;
      dropped_closed = λ k. refl;
    })
    closing false = record {
      young = omega (arith, h.young);
      queued = All-later q.epoch (is_quiet q) (q.barrier || false) q.fifo (ground arith) h.queued;
      sender =
          sender-later q.epoch (is_quiet q) (q.barrier || false) q.sending (ground arith) h.sender;
      reset_kind = h.reset_kind;
      dropped_closed = λ k. refl;
    }

finish_close-IsQueue : (n : ℕ) (q : Queue) → IsQueue n q → IsQueue (suc n) (finish_close q)
unfolding finish_close
finish_close-IsQueue n q h =
    elim (Bool-cases (
      q.close_pending
      && is_none q.sending
      && is_none q.pending_reset
      && ltb (length q.fifo) q.room)) [
        | inr e ↦ rw (e, finish_close) (later n q h)
        | inl e ↦
            rw (e, finish_close)
              (record {
                young = omega (arith, h.young);
                queued = All-end q.epoch (is_quiet q) q.fifo _ h.queued (λ k. ground arith);
                sender = h.sender;
                reset_kind = h.reset_kind;
                dropped_closed = h.dropped_closed;
              })
      ]

pub fifo-cases :
    (ops : List AsyncOp) → (ops ≡ []) ⊎ ((op : AsyncOp) × (rest : List AsyncOp) × (ops ≡ op ∷ rest))
fifo-cases [] = inl refl
fifo-cases (op ∷ rest) = inr (op, rest, refl)

take_next-IsQueue : (n : ℕ) (q : Queue) → IsQueue n q → IsQueue (suc n) (take_next q)
unfolding take_next
take_next-IsQueue n q h = elim (Option-cases q.running) [
  | inr (busy, e) ↦ rw (e, take_next) (later n q h)
  | inl e ↦ elim (fifo-cases q.fifo) [
    | inl f ↦ rw (e, f, take_next) (later n q h)
    | inr (op, rest, f) ↦
        let tail = (subst (All (IsBehind q.epoch (is_quiet q))) f h.queued).1 in
        elim (Bool-cases (is_stale op q.epoch)) [
          | inl g ↦
              rw (e, f, g, take_next)
                (record {
                  young = omega (arith, h.young);
                  queued = tail;
                  sender = h.sender;
                  reset_kind = h.reset_kind;
                  dropped_closed = h.dropped_closed;
                })
          | inr g ↦
              rw (e, f, g, take_next)
                (record {
                  young = omega (arith, h.young);
                  queued = tail;
                  sender = h.sender;
                  reset_kind = h.reset_kind;
                  dropped_closed = h.dropped_closed;
                })
        ]
  ]
]

finish-IsQueue : (n : ℕ) (q : Queue) → IsQueue n q → IsQueue (suc n) (finish q)
unfolding finish
finish-IsQueue n q h = elim (Option-cases q.running) [
  | inl e ↦ rw (e, finish) (later n q h)
  | inr (op, e) ↦ elim (Bool-cases (is_reset op.kind)) [
    | inl f ↦
        rw (e, f, finish)
          (record {
            young = omega (arith, h.young);
            queued = All-later q.epoch (is_quiet q) q.dropped q.fifo (ground arith) h.queued;
            sender = sender-later q.epoch (is_quiet q) q.dropped q.sending (ground arith) h.sender;
            reset_kind = h.reset_kind;
            dropped_closed = h.dropped_closed;
          })
    | inr f ↦
        rw (e, f, finish)
          (record {
            young = omega (arith, h.young);
            queued = h.queued;
            sender = h.sender;
            reset_kind = h.reset_kind;
            dropped_closed = h.dropped_closed;
          })
  ]
]

step-IsQueue :
    (n : ℕ) (q : Queue) (s : Step) → suc n < 2 ^ 64 → IsQueue n q → IsQueue (suc n) (step q s)
unfolding step
step-IsQueue n q (submits kind payload) few h = submit-IsQueue n q kind payload h
step-IsQueue n q sends few h = send-IsQueue n q h
step-IsQueue n q gives_up few h = give_up-IsQueue n q h
step-IsQueue n q resets few h = reset-IsQueue n q few h
step-IsQueue n q locks_reset few h = lock_reset-IsQueue n q h
step-IsQueue n q (closes invalidate) few h = close-IsQueue n q invalidate few h
step-IsQueue n q finishes_close few h = finish_close-IsQueue n q h
step-IsQueue n q takes_next few h = take_next-IsQueue n q h
step-IsQueue n q finishes few h = finish-IsQueue n q h

pub run_steps-IsQueue :
    (n : ℕ) (q : Queue) (ss : List Step)
    → n + length ss < 2 ^ 64
    → IsQueue n q
    → IsQueue (n + length ss) (run_steps q ss)
unfolding run_steps
run_steps-IsQueue n q [] few h = subst (λ k. IsQueue k q) (omega arith) h
run_steps-IsQueue n q (s ∷ ss) few h =
    subst (λ k. IsQueue k (run_steps (step q s) ss)) (omega arith)
      (run_steps-IsQueue (suc n) (step q s) ss (omega (arith, few))
        (step-IsQueue n q s (omega (arith, few)) h))
