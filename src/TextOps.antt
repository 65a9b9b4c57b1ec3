-- ===== src/TextOps.antt =====
-- Replay-safe staging of literal text: daemon/internal/inputops/text.go.
pub mod Hex
pub mod Utf8
pub mod Manifest
pub mod Transfer
pub mod Registry
mod Tests
