-- ===== src/Pointer.antt =====
-- The single-finger pointer of daemon/internal/input/linear_touch.go and its geometry.
pub mod Geometry
pub mod Calibration
pub mod LinearTouch
pub mod Effects
pub mod Held
pub mod Decoded
pub mod Saved
pub mod Motion
mod Tests
