-- ===== src/Session.antt =====
-- Control sessions and permissions of daemon/internal/server: capabilities.go, server.go,
-- lifecycle.go and the input leases of input_operations.go. Server.mutationGate makes each change of
-- the permissions or the connection, and each permitted effect, one step. What the host's input
-- provider answers is an argument of the step.
pub mod Permissions
pub mod Leases
pub mod State
pub mod Permits
pub mod Revocation
pub mod Capacity
pub mod Tests
