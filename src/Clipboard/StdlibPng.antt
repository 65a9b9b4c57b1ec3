-- ===== src/Clipboard/StdlibPng.antt =====
-- stdlibPNG of daemon/internal/server/clipboard.go, which makes the file that is put on the clipboard.
-- `png` gives the parts that png.Encode writes for a picture.
use phonepad.Base.{Bool, Bytes, List, Option, if◌then◌else◌, none, not, some, ◌||◌}
use phonepad.Clipboard.Reading.{◌>>=◌, Run, returns}
use phonepad.Clipboard.Jpeg.{Search, jpeg_orientation, oriented}
use phonepad.Clipboard.Orient.{Picture, apply_jpeg_orientation}
use phonepad.Clipboard.Limits.{FileAnswer, encode, new_writer}

module _ (Color : Type 0) (convert : Color → Color) (blank : Color)
    (png : Picture Color → List Bytes) where
  -- A picture without an orientation stays as it was decoded.
  abbrev pub reoriented : Picture Color → Search → Picture Color
  reoriented p (oriented k) = apply_jpeg_orientation Color convert blank p k
  reoriented p _ = p

  -- `decoded` is what image.Decode makes of the file; `saves` says whether Sync and Close succeed. The
  -- file is removed where the result is `none`.
  unfoldable pub stdlib_png :
      Option (Picture Color)
      → Bytes
      → Option Bytes
      → (Bytes → Bytes → FileAnswer)
      → Bool
      → Run (Option Bytes)
  stdlib_png none extension contents file saves = returns none
  stdlib_png (some p) extension contents file saves = do
    found ← jpeg_orientation extension contents
    let out = encode file new_writer (png (reoriented p found))
    returns (if out.1 || not saves then none else some out.0.file)
