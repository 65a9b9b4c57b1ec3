-- ===== src/InputQueue.antt =====
-- The queue in front of the input provider, asyncText of daemon/internal/input/async.go. Callers,
-- the goroutines that it starts and its worker are steps of one state, in any order.
pub mod State
pub mod Invariant
pub mod Barrier
pub mod Order
pub mod Ledger
pub mod Tests
