-- ===== src/InputQueue/Tests.antt =====
-- A reset overtakes a pointer movement that is still queued, and holds back a text.
use phonepad.Base.{List, Splits, [], arith, refl, some, true, ◌++◌, ◌∷◌, ◌≡◌}
use phonepad.InputQueue.State.{
  AsyncOp, Step, finish, finishes, is_control, lock_reset, locks_reset, new_async_text, op_move,
  op_reset, op_text, reset, resets, run_steps, send, sends, starts, step, submit, submits,
  take_next, takes_next,
}
use phonepad.InputQueue.Ledger.{content, entered, given_up, skipped, started, taken}
use phonepad.InputQueue.Order.{new_async_text_order}
use phonepad.InputQueue.Invariant.{is_quiet}
use phonepad.InputQueue.Barrier.{new_async_text-quiet}

abbrev traffic : List Step
traffic =
    submits op_move 1 ∷ sends ∷ resets ∷ submits op_text 2 ∷ locks_reset ∷ sends ∷ takes_next ∷ []

abbrev reset_op : AsyncOp
reset_op = record { kind = op_reset; payload = 0; epoch = 1 }

abbrev after_reset : List Step
after_reset = takes_next ∷ finishes ∷ submits op_text 2 ∷ sends ∷ []

starts_reset : starts (run_steps (new_async_text 8) traffic) ≡ some reset_op
unfolding starts run_steps step new_async_text submit send reset lock_reset take_next
starts_reset = refl

starts_text :
    starts (run_steps (new_async_text 8) (traffic ++ after_reset))
    ≡ some (record { kind = op_text; payload = 2; epoch = 1 })
unfolding starts run_steps step new_async_text submit send reset lock_reset take_next finish
starts_text = refl

pending : is_quiet (run_steps (new_async_text 8) traffic) ≡ true
unfolding run_steps step new_async_text submit send reset lock_reset take_next
pending = refl

new_async_text-quiet_example : is_control op_reset ≡ true
new_async_text-quiet_example =
    new_async_text-quiet 8 traffic reset_op (omega arith) pending starts_reset

new_async_text_order_example :
    let q = new_async_text 8 in
    let ss = traffic ++ after_reset in
    Splits (entered q ss) (taken q ss ++ content (run_steps q ss)) (given_up q ss)
    × Splits (taken q ss) (started q ss) (skipped q ss)
new_async_text_order_example = new_async_text_order 8 (traffic ++ after_reset)
