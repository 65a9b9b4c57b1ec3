-- ===== src/Clipboard/Written.antt =====
-- What file stdlibPNG of daemon/internal/server/clipboard.go makes of a picture.
use phonepad.Base.{
  Bool, Bool-cases, Bytes, List, Option, arith, if◌then◌else◌, inl, inr, length, none, not, refl,
  some, suc, zero, ◌||◌, ◌≡◌, ◌≤◌,
}
use phonepad.Clipboard.Reading.{Run, panics, returns, ◌>>=◌}
use phonepad.Clipboard.Jpeg.{Search, jpeg_orientation, oriented, unavailable, unfinished}
use phonepad.Clipboard.Found.{IsDone, jpeg_orientation-IsDone}
use phonepad.Clipboard.Orient.{Picture, apply_jpeg_orientation}
use phonepad.Clipboard.Turns.{Shows}
use phonepad.Clipboard.Shown.{shown, apply_jpeg_orientation-Shows}
use phonepad.Clipboard.Limits.{FileAnswer, encode, max_clipboard_image_bytes, new_writer}
use phonepad.Clipboard.Bounded.{IsIoWriter, concat, encode-new_writer}
use phonepad.Clipboard.StdlibPng.{stdlib_png, reoriented}

module _ (Color : Type 0) (convert : Color → Color) (blank : Color)
    (png : Picture Color → List Bytes) where
  -- What a picture is to look like, by the orientation that was found for it.
  abbrev pub Displays : Picture Color → Search → Picture Color → Type 0
  Displays p (oriented (suc (suc k))) q = Shows Color convert q (shown Color (suc (suc k)) p)
  Displays p _ q = q ≡ p

  -- Nothing, or the whole file of that picture.
  abbrev pub IsFileOf : Picture Color → Search → Run (Option Bytes) → Type 0
  IsFileOf p found panics = ⊥
  IsFileOf p found (returns none) = Unit
  IsFileOf p found (returns (some bytes)) =
      (length bytes ≤ max_clipboard_image_bytes)
      × ((q : Picture Color) × Displays p found q × (bytes ≡ concat (png q)))

  reoriented-Displays :
      (p : Picture Color) (found : Search)
      → IsDone (returns found)
      → Displays p found (reoriented Color convert blank png p found)
  unfolding apply_jpeg_orientation
  reoriented-Displays p unavailable v = refl
  reoriented-Displays p unfinished v = refl
  reoriented-Displays p (oriented zero) v = refl
  reoriented-Displays p (oriented (suc zero)) v = refl
  reoriented-Displays p (oriented (suc (suc k))) v =
      apply_jpeg_orientation-Shows Color convert blank p (suc (suc k)) (omega arith)
        (omega (arith, v))

  -- If the file keeps the contract of io.Writer: the search for an orientation ends without a panic,
  -- and stdlibPNG then ends with an error or with a file of at most 128 MiB that holds the whole PNG
  -- of the picture: as the orientation shows it that was found, if it is one from 2 to 8, and as it was
  -- decoded if it is 1 or none was found.
  pub stdlib_png_written :
      (p : Picture Color) (extension : Bytes) (contents : Option Bytes)
      (file : Bytes → Bytes → FileAnswer) (saves : Bool)
      → IsIoWriter file
      → (found : Search) × (jpeg_orientation extension contents ≡ returns found)
        × IsFileOf p found
            (stdlib_png Color convert blank png (some p) extension contents file saves)
  unfolding stdlib_png
  stdlib_png_written p extension contents file saves io =
      searched (jpeg_orientation extension contents) (jpeg_orientation-IsDone extension contents)
    where
      written :
          (found : Search) (q : Picture Color)
          → Displays p found q
          → IsFileOf p found (
              returns (
                if (encode file new_writer (png q)).1 || not saves
                then none
                else some (encode file new_writer (png q)).0.file))
      written found q v =
          let (n, outcome) = encode-new_writer file io (png q) in
          elim outcome [
            | inr (e, why) ↦ rw e tt
            | inl (e, whole) ↦
                rw e (elim (Bool-cases saves) [ inl f ↦ rw f (n, (q, v, whole)) | inr f ↦ rw f tt ])
          ]

      searched :
          (r : Run Search)
          → IsDone r
          → (found : Search) × (r ≡ returns found)
            × IsFileOf p found (
                r >>= λ s.
                let q = reoriented Color convert blank png p s in
                returns (
                  if (encode file new_writer (png q)).1 || not saves
                  then none
                  else some (encode file new_writer (png q)).0.file))
      searched panics v = absurd v
      searched (returns s) v =
          (s, refl, written s (reoriented Color convert blank png p s) (reoriented-Displays p s v))
