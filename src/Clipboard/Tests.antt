-- ===== src/Clipboard/Tests.antt =====
-- Runs of the model of daemon/internal/server/clipboard.go, and the theorems at them.
use phonepad.Base.{
  Bytes, List, [], arith, ascii, bytes_eq, false, length, pos, refl, some, true, ℕ, ◌*◌, ◌++◌, ◌+◌,
  ◌<◌, ◌↔◌, ◌∷◌, ◌≡◌, ◌≤◌, ◌⊎◌,
}
use phonepad.Clipboard.Reading.{returns, slice, uint16, uint16_at, uint32, uint32_at}
use phonepad.Clipboard.Exif.{
  exif_orientation, directory_orientation, entries_orientation, entry_orientation,
}
use phonepad.Clipboard.Jpeg.{
  Search, after_marker, fill, jpeg_orientation, oriented, search_from, segment_orientation,
}
use phonepad.Clipboard.Found.{IsDone, jpeg_orientation-IsDone}
use phonepad.Clipboard.Orient.{
  Picture, apply_jpeg_orientation, place_of, set_pixel, turn_row, turn_rows,
}
use phonepad.Clipboard.Turns.{Shows}
use phonepad.Clipboard.Shown.{shown, apply_jpeg_orientation-Shows}
use phonepad.Clipboard.Limits.{
  FileAnswer, encode, max_clipboard_image_bytes, new_writer, valid_clipboard_dimensions, write,
}
use phonepad.Clipboard.Bounded.{
  IsIoWriter, Breaks, Fits, concat, encode-new_writer, valid_clipboard_dimensions_iff,
}
use phonepad.Clipboard.Written.{stdlib_png_written, IsFileOf}
use phonepad.Clipboard.StdlibPng.{stdlib_png}

-- A JPEG that names the orientation 6, in little-endian order.
abbrev camera : Bytes
camera =
    0xff ∷ 0xd8 ∷ 0xff ∷ 0xe1 ∷ 0 ∷ 30 ∷ ascii "Exif"
    ++ 0 ∷ 0 ∷ ascii "II"
    ++ 42 ∷ 0 ∷ 8 ∷ 0 ∷ 0 ∷ 0 ∷ 1 ∷ 0 ∷ 0x12 ∷ 1 ∷ 3 ∷ 0 ∷ 1 ∷ 0 ∷ 0 ∷ 0 ∷ 6 ∷ 0 ∷ 0 ∷ 0 ∷ []

camera_turned : jpeg_orientation (ascii ".jpg") (some camera) ≡ returns (oriented 6)
unfolding jpeg_orientation search_from fill after_marker segment_orientation exif_orientation
    directory_orientation entries_orientation entry_orientation uint16_at uint32_at uint16 uint32
    slice bytes_eq
camera_turned = refl

jpeg_orientation-IsDone_example : IsDone (jpeg_orientation (ascii ".jpg") (some camera))
jpeg_orientation-IsDone_example = jpeg_orientation-IsDone (ascii ".jpg") (some camera)

-- Two pixels wide and three high, each pixel named by its place.
abbrev poster : Picture ℕ
poster = record { width = 2; height = 3; at = λ x y. 10 * x + y }

abbrev same : ℕ → ℕ
same c = c

poster_turned :
    let p = apply_jpeg_orientation ℕ same 99 poster 6 in
    p.width ∷ p.height ∷ p.at 0 0 ∷ p.at 2 1 ∷ p.at 3 0 ∷ [] ≡ 3 ∷ 2 ∷ 2 ∷ 10 ∷ 99 ∷ []
unfolding apply_jpeg_orientation turn_rows turn_row set_pixel place_of
poster_turned = refl

apply_jpeg_orientation-Shows_example :
    Shows ℕ same (apply_jpeg_orientation ℕ same 99 poster 6) (shown ℕ 6 poster)
apply_jpeg_orientation-Shows_example =
    apply_jpeg_orientation-Shows ℕ same 99 poster 6 (omega arith) (omega arith)

valid_clipboard_dimensions_iff_example :
    (valid_clipboard_dimensions (pos 9000) (pos 8000) ≡ true) ↔ Fits (pos 9000) (pos 8000)
valid_clipboard_dimensions_iff_example = valid_clipboard_dimensions_iff (pos 9000) (pos 8000)

large_refused : valid_clipboard_dimensions (pos 9000) (pos 8000) ≡ false
unfolding valid_clipboard_dimensions
large_refused = refl

-- A file that takes every write.
abbrev roomy : Bytes → Bytes → FileAnswer
roomy s b = record { taken = length b; fails = false }

roomy-IsIoWriter : IsIoWriter roomy
roomy-IsIoWriter = record { at_most = λ s b. omega arith; short = λ s b h. absurd (omega arith) }

abbrev parts : List Bytes
parts = ascii "PNG" ∷ ascii "IDAT" ∷ []

encode-new_writer_example :
    let out = encode roomy new_writer parts in
    (length out.0.file ≤ max_clipboard_image_bytes)
    × (((out.1 ≡ false) × (out.0.file ≡ concat parts))
        ⊎ ((out.1 ≡ true) × (Breaks roomy ⊎ (max_clipboard_image_bytes < length (concat parts)))))
encode-new_writer_example = encode-new_writer roomy roomy-IsIoWriter parts

-- The pixels of a picture's first row, in place of an encoder.
abbrev first_row : Picture ℕ → List Bytes
first_row p = (p.at 0 0 ∷ p.at 1 0 ∷ p.at 2 0 ∷ []) ∷ []

poster_written :
    stdlib_png ℕ same 99 first_row (some poster) (ascii ".jpg") (some camera) roomy true
    ≡ returns (some (2 ∷ 1 ∷ 0 ∷ []))
unfolding stdlib_png encode new_writer write apply_jpeg_orientation turn_rows turn_row set_pixel
    place_of
poster_written = rw camera_turned refl

stdlib_png_written_example :
    (found : Search) × (jpeg_orientation (ascii ".jpg") (some camera) ≡ returns found)
    × IsFileOf ℕ same 99 first_row poster found
        (stdlib_png ℕ same 99 first_row (some poster) (ascii ".jpg") (some camera) roomy true)
stdlib_png_written_example =
    stdlib_png_written ℕ same 99 first_row poster (ascii ".jpg") (some camera) roomy true
      roomy-IsIoWriter
