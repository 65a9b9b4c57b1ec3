-- ===== src/Protocol.antt =====
-- daemon/internal/server/protocol.go: the messages of the control connection, what makes one
-- valid, and Parse. The JSON decoder and the Unicode tables of Go's library are parameters.
pub mod Tokens
pub mod Messages
pub mod Snapshots
pub mod Tests
