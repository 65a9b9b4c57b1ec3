-- ===== src/Keyboard.antt =====
-- Keys and buttons of daemon/internal/input/input.go, with the tables of keymap.go
-- and the paste of clipboard_literal_linux.go.
pub mod Keymap
pub mod Device
pub mod Combo
pub mod Paste
pub mod Typing
pub mod Tracked
pub mod Executed
pub mod Released
pub mod Plan
mod Tests
