-- ===== src/Clipboard.antt =====
-- The pictures that daemon/internal/server/clipboard.go puts on the clipboard: their size, their
-- orientation and the file they are written to.
pub mod Reading
pub mod Exif
pub mod Jpeg
pub mod Ranges
pub mod Found
pub mod Orient
pub mod Turns
pub mod Shown
pub mod Limits
pub mod Bounded
pub mod StdlibPng
pub mod Written
mod Tests
