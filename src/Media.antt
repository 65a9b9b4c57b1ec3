-- ===== src/Media.antt =====
-- What the screen's provider says of its source, in daemon/internal/server/media.go, and the answers
-- that the daemon keeps of it.
pub mod Snapshot
pub mod Observe
pub mod Epochs
pub mod Log
mod Tests
