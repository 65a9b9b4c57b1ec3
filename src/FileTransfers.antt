-- ===== src/FileTransfers.antt =====
-- The clipboard of a published batch, in daemon/internal/server/file_transfers.go.
pub mod Claim
pub mod Once
mod Tests
