-- ===== src/TextUpload.antt =====
-- handleInput of daemon/internal/server/input_operations.go: the HTTP handler that drives text
-- operations under the session's permits and leases.
pub mod Request
pub mod World
pub mod Begin
pub mod Commit
pub mod Handler
pub mod Follows
pub mod Dispatch
pub mod Quiet
pub mod Once
mod Tests
