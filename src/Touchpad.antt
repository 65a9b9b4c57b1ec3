-- ===== src/Touchpad.antt =====
-- The multitouch state of daemon/internal/input/touchpad.go: snapshots of the live contacts become
-- evdev events of the Type B slot protocol.
pub mod Events
pub mod Slots
pub mod Frame
pub mod Kernel
pub mod History
pub mod Scale
pub mod Tests
