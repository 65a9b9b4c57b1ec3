-- ===== src/InputQueue/Order.antt =====
-- Where every operation that enters the queue ends up, and in which order.
use phonepad.Base.{
  Bool-cases, List, Option-cases, Splits, Splits-append, Splits-keeps, Splits-parts, [], ap,
  append-empty, append_assoc, drops, ends, inl, inr, keeps, refl, subst, sym, ℕ, ◌++◌, ◌∙◌, ◌∷◌,
  ◌≡◌,
}
use phonepad.InputQueue.State.{
  run_steps, new_async_text, sends, resets, closes, finishes, takes_next, take_next, Queue, AsyncOp,
  Step, finishes_close, gives_up, is_stale, locks_reset, step, submits,
}
use phonepad.InputQueue.Invariant.{fifo-cases}
use phonepad.InputQueue.Ledger.{
  as_list, content, entered, entered_by, given_up, given_up_by, skipped, skipped_by, started,
  started_by, step-Moves, taken, taken_by,
}

-- What a run pushes on the channel, against what enters and what leaves.
record Accounts (q : Queue) (ss : List Step) : Type 0 where
  kept : List AsyncOp
  entry : Splits (as_list q.sending ++ entered q ss) kept (given_up q ss)
  exit : q.fifo ++ kept ≡ taken q ss ++ content (run_steps q ss)

run-Accounts : (ss : List Step) (q : Queue) → Accounts q ss
unfolding entered given_up taken run_steps content
run-Accounts [] q = record {
  kept = as_list q.sending;
  entry =
      subst (λ zs. Splits zs (as_list q.sending) [])
        (sym (append-empty (as_list q.sending) [] refl)) (Splits-keeps (as_list q.sending));
  exit = refl;
}
run-Accounts (s ∷ ss) q =
    let q' = step q s in
    let m = step-Moves q s in
    let rest = run-Accounts ss q' in
    let now = given_up_by q s in
    record {
      kept = m.pushed ++ rest.kept;
      entry =
          subst (λ zs. Splits zs (m.pushed ++ rest.kept) (now ++ given_up q' ss))
            (sym (append_assoc (m.pushed ++ now) (as_list q'.sending) (entered q' ss))
              ∙ ap (λ zs. zs ++ entered q' ss) (sym m.entry)
              ∙ append_assoc (as_list q.sending) (entered_by q s) (entered q' ss))
            (Splits-append (Splits-parts m.pushed now) rest.entry);
      exit =
          sym (append_assoc q.fifo m.pushed rest.kept)
          ∙ ap (λ zs. zs ++ rest.kept) m.exit
          ∙ append_assoc (taken_by q s) q'.fifo rest.kept
          ∙ ap (λ zs. taken_by q s ++ zs) rest.exit
          ∙ sym (append_assoc (taken_by q s) (taken q' ss) (content (run_steps q' ss)));
    }

-- The worker starts what it receives, or skips it.
taken_by-Splits : (q : Queue) (s : Step) → Splits (taken_by q s) (started_by q s) (skipped_by q s)
unfolding taken_by started_by skipped_by take_next
taken_by-Splits q takes_next = elim (Option-cases q.running) [
  | inr (busy, e) ↦ rw (e, take_next) ends
  | inl e ↦ elim (fifo-cases q.fifo) [
    | inl f ↦ rw (e, f, take_next) ends
    | inr (op, rest, f) ↦ elim (Bool-cases (is_stale op q.epoch)) [
      | inl g ↦ rw (e, f, g, take_next) (drops op ends)
      | inr g ↦ rw (e, f, g, take_next) (keeps op ends)
    ]
  ]
]
taken_by-Splits q (submits kind payload) = ends
taken_by-Splits q sends = ends
taken_by-Splits q gives_up = ends
taken_by-Splits q resets = ends
taken_by-Splits q locks_reset = ends
taken_by-Splits q (closes invalidate) = ends
taken_by-Splits q finishes_close = ends
taken_by-Splits q finishes = ends

taken-Splits : (ss : List Step) (q : Queue) → Splits (taken q ss) (started q ss) (skipped q ss)
unfolding taken started skipped
taken-Splits [] q = ends
taken-Splits (s ∷ ss) q = Splits-append (taken_by-Splits q s) (taken-Splits ss (step q s))

-- Nothing that enters a new queue is lost, repeated, made up or overtaken, whatever steps follow.
-- The operations whose sender, reset or close got the lock, in that order, are those that the worker
-- has received and then those that the queue still holds, interleaved only with those whose sender
-- gave up. Those that the worker received are, in that order, those it started, interleaved only
-- with those it skipped because their epoch was over.
pub new_async_text_order :
    (buf : ℕ) (ss : List Step)
    → let q = new_async_text buf in
      Splits (entered q ss) (taken q ss ++ content (run_steps q ss)) (given_up q ss)
      × Splits (taken q ss) (started q ss) (skipped q ss)
unfolding new_async_text
new_async_text_order buf ss =
    let q = new_async_text buf in
    let a = run-Accounts ss q in
    (subst (λ kept. Splits (entered q ss) kept (given_up q ss)) a.exit a.entry, taken-Splits ss q)
