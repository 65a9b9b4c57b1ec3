-- ===== src/Pairing.antt =====
-- Who may control the host: the credential of daemon/internal/pairing/pairing.go, and the one-shot
-- codes of daemon/internal/server/session.go with which a phone gets it.
pub mod Credential
pub mod Codes
pub mod Tests
