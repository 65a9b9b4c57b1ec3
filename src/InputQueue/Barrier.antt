-- ===== src/InputQueue/Barrier.antt =====
-- No input starts while a reset is pending, nor once a CloseContext has closed the queue.
use phonepad.Base.{
  All, List, Option-cases, arith, inl, inr, length, some, subst, true, ℕ, ◌+◌, ◌<◌, ◌^◌, ◌≡◌,
}
use phonepad.InputQueue.State.{AsyncOp, Queue, Step, is_control, new_async_text, run_steps, starts}
use phonepad.InputQueue.Invariant.{IsBehind, IsQueue, fifo-cases, is_quiet, run_steps-IsQueue}

new_async_text-IsQueue : (buf : ℕ) → IsQueue 0 (new_async_text buf)
unfolding new_async_text
new_async_text-IsQueue buf = record {
  young = omega arith;
  queued = tt;
  sender = tt;
  reset_kind = λ op k. ground arith;
  dropped_closed = λ k. ground arith;
}

quiet-starts :
    (n : ℕ) (q : Queue) (op : AsyncOp)
    → IsQueue n q
    → is_quiet q ≡ true
    → starts q ≡ some op
    → is_control op.kind ≡ true
unfolding starts
quiet-starts n q op h quiet s = elim (Option-cases q.running) [
  | inr (busy, e) ↦ ground (arith, e)
  | inl e ↦ elim (fifo-cases q.fifo) [
    | inl f ↦ ground (arith, e, f)
    | inr (first, rest, f) ↦
        let behind = (subst (All (IsBehind q.epoch (is_quiet q))) f h.queued).0 in
        ground (arith, e, f, behind, quiet)
  ]
]

-- After fewer than 2^64 steps of a new queue, the worker starts no input operation while a reset is
-- pending or running, nor ever again once a CloseContext has closed the queue: the next thing it may
-- start is the reset or the close. A CloseContext of a queue that Close had closed before changes
-- nothing, and does not count.
pub new_async_text-quiet :
    (buf : ℕ) (ss : List Step) (op : AsyncOp)
    → length ss < 2 ^ 64
    → is_quiet (run_steps (new_async_text buf) ss) ≡ true
    → starts (run_steps (new_async_text buf) ss) ≡ some op
    → is_control op.kind ≡ true
new_async_text-quiet buf ss op few quiet s =
    quiet-starts (0 + length ss) _ op
      (run_steps-IsQueue 0 (new_async_text buf) ss (omega (arith, few))
        (new_async_text-IsQueue buf))
      quiet s
