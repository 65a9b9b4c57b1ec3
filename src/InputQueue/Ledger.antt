-- ===== src/InputQueue/Ledger.antt =====
-- Where an operation of the queue goes in a step, and that no step loses one.
use phonepad.Base.{
  Bool, Bool-cases, List, Option, Option-cases, [], append-empty, arith, if◌then◌else◌, inl, inr,
  length, ltb, none, not, refl, some, sym, true, ℕ, ◌&&◌, ◌++◌, ◌||◌, ◌∙◌, ◌∷◌, ◌≡◌,
}
use phonepad.InputQueue.State.{
  sends, resets, closes, finishes, takes_next, take_next, reset, close, finish, finish_close, send,
  give_up, Queue, AsyncOp, Kind, Step, finishes_close, gives_up, is_control, is_none, is_reset,
  is_stale, lock_reset, locks_reset, op_close, step, submit, submits,
}
use phonepad.InputQueue.Invariant.{fifo-cases}

abbrev pub as_list : Option AsyncOp → List AsyncOp
as_list none = []
as_list (some op) = op ∷ []

-- What the queue holds, the next one first: what is in the channel, and what its sender holds.
unfoldable pub content : Queue → List AsyncOp
content q = q.fifo ++ as_list q.sending

-- The operations that get enqueueMu, or that finishClose sends, in a step.
unfoldable pub entered_by : Queue → Step → List AsyncOp
entered_by q (submits kind payload) =
    if not (is_none q.sending) || q.closed || q.barrier || is_control kind
    then []
    else record { kind = kind; payload = payload; epoch = q.epoch } ∷ []
entered_by q locks_reset = if is_none q.sending then as_list q.pending_reset else []
entered_by q finishes_close =
    if q.close_pending && is_none q.sending && is_none q.pending_reset && ltb (length q.fifo) q.room
    then record { kind = op_close; payload = 0; epoch = q.epoch } ∷ []
    else []
entered_by q _ = []

unfoldable pub entered : Queue → List Step → List AsyncOp
entered q [] = []
entered q (s ∷ ss) = entered_by q s ++ entered (step q s) ss

-- The operation whose sender's context ends before it is in the channel.
unfoldable pub given_up_by : Queue → Step → List AsyncOp
given_up_by q gives_up = elim q.sending [
  | none ↦ []
  | some op ↦ if is_reset op.kind then [] else op ∷ []
]
given_up_by q _ = []

unfoldable pub given_up : Queue → List Step → List AsyncOp
given_up q [] = []
given_up q (s ∷ ss) = given_up_by q s ++ given_up (step q s) ss

-- The operation that an idle worker receives.
unfoldable pub taken_by : Queue → Step → List AsyncOp
taken_by q takes_next = elim q.running [
  | some busy ↦ []
  | none ↦ elim q.fifo [ [] ↦ [] | op ∷ rest ↦ op ∷ [] ]
]
taken_by q _ = []

unfoldable pub taken : Queue → List Step → List AsyncOp
taken q [] = []
taken q (s ∷ ss) = taken_by q s ++ taken (step q s) ss

-- The operation that an idle worker has in hand after it received.
unfoldable pub started_by : Queue → Step → List AsyncOp
unfolding take_next
started_by q takes_next = elim q.running [ some busy ↦ [] | none ↦ as_list (take_next q).running ]
started_by q _ = []

-- The operations that the worker hands to the provider.
unfoldable pub started : Queue → List Step → List AsyncOp
started q [] = []
started q (s ∷ ss) = started_by q s ++ started (step q s) ss

-- The operation that the worker receives and skips, since its epoch is over.
unfoldable pub skipped_by : Queue → Step → List AsyncOp
skipped_by q takes_next = elim q.running [
  | some busy ↦ []
  | none ↦ elim q.fifo [ [] ↦ [] | op ∷ rest ↦ if is_stale op q.epoch then op ∷ [] else [] ]
]
skipped_by q _ = []

unfoldable pub skipped : Queue → List Step → List AsyncOp
skipped q [] = []
skipped q (s ∷ ss) = skipped_by q s ++ skipped (step q s) ss

none_there : (o : Option AsyncOp) → is_none o ≡ true → o ≡ none
none_there o h = ground arith

-- What a step pushes on the channel.
pub record Moves (q : Queue) (s : Step) : Type 0 where
  pub pushed : List AsyncOp
  pub entry :
      as_list q.sending ++ entered_by q s ≡ pushed ++ given_up_by q s ++ as_list (step q s).sending
  pub exit : q.fifo ++ pushed ≡ taken_by q s ++ (step q s).fifo

stays :
    (q : Queue) (s : Step)
    → as_list q.sending ++ entered_by q s ≡ given_up_by q s ++ as_list (step q s).sending
    → q.fifo ≡ taken_by q s ++ (step q s).fifo
    → Moves q s
stays q s e f = record { pushed = []; entry = e; exit = append-empty q.fifo [] refl ∙ f }

Moves-submit : (q : Queue) (kind : Kind) (payload : ℕ) → Moves q (submits kind payload)
unfolding submit step entered_by given_up_by taken_by
Moves-submit q kind payload =
    elim (Bool-cases (not (is_none q.sending) || q.closed || q.barrier || is_control kind)) [
      | inl e ↦
          stays q _ (rw (e, submit) (append-empty (as_list q.sending) [] refl))
            (rw (e, submit) refl)
      | inr e ↦
          let idle = none_there q.sending (ground arith) in
          stays q _ (rw (e, submit) (rw idle refl)) (rw (e, submit) refl)
    ]

Moves-lock_reset : (q : Queue) → Moves q locks_reset
unfolding lock_reset step entered_by given_up_by taken_by
Moves-lock_reset q = elim (Bool-cases (is_none q.sending)) [
  | inr e ↦
      stays q _ (rw (e, lock_reset) (append-empty (as_list q.sending) [] refl))
        (rw (e, lock_reset) refl)
  | inl e ↦
      let idle = none_there q.sending e in
      elim (Option-cases q.pending_reset) [
        | inl f ↦
            stays q _ (rw (idle, f, lock_reset) (rw idle refl)) (rw (idle, f, lock_reset) refl)
        | inr (op, f) ↦ stays q _ (rw (idle, f, lock_reset) refl) (rw (idle, f, lock_reset) refl)
      ]
]

Moves-finish_close : (q : Queue) → Moves q finishes_close
unfolding finish_close step entered_by given_up_by taken_by
Moves-finish_close q =
    elim (Bool-cases (
      q.close_pending
      && is_none q.sending
      && is_none q.pending_reset
      && ltb (length q.fifo) q.room)) [
        | inr e ↦
            stays q _ (rw (e, finish_close) (append-empty (as_list q.sending) [] refl))
              (rw (e, finish_close) refl)
        | inl e ↦
            let idle = none_there q.sending (ground arith) in
            record {
              pushed = record { kind = op_close; payload = 0; epoch = q.epoch } ∷ [];
              entry = rw (e, finish_close) (rw idle refl);
              exit = rw (e, finish_close) refl;
            }
      ]

Moves-send : (q : Queue) → Moves q sends
unfolding send step entered_by given_up_by taken_by
Moves-send q = elim (Option-cases q.sending) [
  | inl e ↦ stays q _ (rw (e, send) (rw e refl)) (rw (e, send) refl)
  | inr (op, e) ↦ elim (Bool-cases (ltb (length q.fifo) q.room)) [
    | inl f ↦ record { pushed = op ∷ []; entry = rw (e, f, send) refl; exit = rw (e, f, send) refl }
    | inr f ↦ stays q _ (rw (e, f, send) (rw e refl)) (rw (e, f, send) refl)
  ]
]

Moves-give_up : (q : Queue) → Moves q gives_up
unfolding give_up step entered_by given_up_by taken_by
Moves-give_up q = elim (Option-cases q.sending) [
  | inl e ↦ stays q _ (rw (e, give_up) (rw e refl)) (rw (e, give_up) refl)
  | inr (op, e) ↦ elim (Bool-cases (is_reset op.kind)) [
    | inl f ↦ stays q _ (rw (e, f, give_up) (rw e refl)) (rw (e, f, give_up) refl)
    | inr f ↦ stays q _ (rw (e, f, give_up) refl) (rw (e, f, give_up) refl)
  ]
]

Moves-take_next : (q : Queue) → Moves q takes_next
unfolding take_next step entered_by given_up_by taken_by
Moves-take_next q = elim (Option-cases q.running) [
  | inr (busy, e) ↦
      stays q _ (rw (e, take_next) (append-empty (as_list q.sending) [] refl))
        (rw (e, take_next) refl)
  | inl e ↦ elim (fifo-cases q.fifo) [
    | inl f ↦
        stays q _ (rw (e, f, take_next) (append-empty (as_list q.sending) [] refl))
          (rw (e, f, take_next) (sym f))
    | inr (op, rest, f) ↦ elim (Bool-cases (is_stale op q.epoch)) [
      | inl g ↦
          stays q _ (rw (e, f, g, take_next) (append-empty (as_list q.sending) [] refl))
            (rw (e, f, g, take_next) refl)
      | inr g ↦
          stays q _ (rw (e, f, g, take_next) (append-empty (as_list q.sending) [] refl))
            (rw (e, f, g, take_next) refl)
    ]
  ]
]

Moves-reset : (q : Queue) → Moves q resets
unfolding reset step entered_by given_up_by taken_by
Moves-reset q = stays q _ (append-empty (as_list q.sending) [] refl ∙ ground arith) (ground arith)

Moves-close : (q : Queue) (invalidate : Bool) → Moves q (closes invalidate)
unfolding close step entered_by given_up_by taken_by
Moves-close q invalidate =
    stays q _ (append-empty (as_list q.sending) [] refl ∙ ground arith) (ground arith)

Moves-finish : (q : Queue) → Moves q finishes
unfolding finish step entered_by given_up_by taken_by
Moves-finish q = stays q _ (append-empty (as_list q.sending) [] refl ∙ ground arith) (ground arith)

pub step-Moves : (q : Queue) (s : Step) → Moves q s
step-Moves q (submits kind payload) = Moves-submit q kind payload
step-Moves q sends = Moves-send q
step-Moves q gives_up = Moves-give_up q
step-Moves q resets = Moves-reset q
step-Moves q locks_reset = Moves-lock_reset q
step-Moves q (closes invalidate) = Moves-close q invalidate
step-Moves q finishes_close = Moves-finish_close q
step-Moves q takes_next = Moves-take_next q
step-Moves q finishes = Moves-finish q
