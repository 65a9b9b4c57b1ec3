-- ===== src/EventHub.antt =====
-- The events for the pairing view, in daemon/internal/server/events.go.
pub mod Hub
pub mod CaughtUp
mod Tests
