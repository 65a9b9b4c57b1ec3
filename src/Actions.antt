-- ===== src/Actions.antt =====
-- Key actions with receipts, daemon/internal/server/actions.go. Each section of code between a lock
-- of Server.mu and its unlock is one function here, so that goroutines that run the code at once
-- are a list of sections in any order. What a goroutine does between two sections is to wait for a
-- channel or to call the provider. A lock of an operation's dispatchMu encloses one such section
-- each time.
pub mod Operations
pub mod Reserve
pub mod Sections
pub mod History
pub mod Grants
pub mod Cancelled
pub mod Bounds
pub mod Tests
