-- ===== src/Clipboard/Limits.antt =====
-- validClipboardDimensions and limitedFileWriter of daemon/internal/server/clipboard.go: the bounds on
-- a picture's pixels and on the bytes of its file.
use phonepad.Base.{
  Bool, Bytes, List, [], false, if◌then◌else◌, length, ltb, not, pos, take, true, ℕ, ℤ, ◌*◌, ◌++◌,
  ◌-◌, ◌/◌, ◌==◌, ◌^◌, ◌||◌, ◌∷◌,
}

abbrev pub max_clipboard_pixels : ℕ
max_clipboard_pixels = 64 * 1024 * 1024

abbrev pub max_clipboard_image_bytes : ℕ
max_clipboard_image_bytes = 128 * 2 ^ 20

-- As whether it accepts. The division is that of two positive numbers.
unfoldable pub valid_clipboard_dimensions : ℤ → ℤ → Bool
valid_clipboard_dimensions (pos w) (pos h) =
    if w == 0 || h == 0 then false else not (ltb (max_clipboard_pixels / h) w)
valid_clipboard_dimensions w h = false

pub record LimitedFileWriter : Type 0 where
  pub file : Bytes
  pub left : ℕ

-- What the file makes of a write: how many bytes it takes, and whether it reports an error.
pub record FileAnswer : Type 0 where
  pub taken : ℕ
  pub fails : Bool

-- `Write`, and whether it returns an error.
unfoldable pub write : LimitedFileWriter → Bytes → FileAnswer → LimitedFileWriter × Bool
write w bytes answer = if ltb w.left (length bytes) then (w, true) else (
  record { file = w.file ++ take answer.taken bytes; left = w.left - answer.taken },
  answer.fails,
)

-- png.Encode writes its parts in order, up to the first error, which it returns.
unfoldable pub encode :
    (Bytes → Bytes → FileAnswer) → LimitedFileWriter → List Bytes → LimitedFileWriter × Bool
encode file w [] = (w, false)
encode file w (part ∷ parts) =
    let (w', failed) = write w part (file w.file part) in
    let rest = encode file w' parts in if failed then (w', true) else rest

-- The writer of stdlibPNG.
unfoldable pub new_writer : LimitedFileWriter
new_writer = record { file = []; left = max_clipboard_image_bytes }
