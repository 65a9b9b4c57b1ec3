-- ===== src/Clipboard/Jpeg.antt =====
-- jpegOrientation of daemon/internal/server/clipboard.go: the search of a JPEG's segments for the
-- orientation.
use phonepad.Base.{
  Bool, Bytes, Option, [], ascii, bytes_eq, drop, false, if◌then◌else◌, leb, length, ltb, none, not,
  some, suc, take, zero, ℕ, ◌&&◌, ◌++◌, ◌+◌, ◌-◌, ◌==◌, ◌^◌, ◌||◌, ◌∷◌,
}
use phonepad.Clipboard.Reading.{Run, returns, ◌>>=◌, big_endian, index, slice, uint16_at}
use phonepad.Clipboard.Exif.{exif_orientation}

-- What the search comes to: an error, or an orientation; or it is not done after its rounds.
pub data Search : Type 0 where
  unavailable unfinished : Search
  oriented : ℕ → Search

-- `for offset < len(data) && data[offset] == 0xff { offset++ }`, on what is left of the data.
unfoldable pub fill : Bytes → ℕ
fill [] = 0
fill (b ∷ rest) = let n = fill rest in if b == 0xff then suc n else 0

-- `bytes.HasPrefix(segment, []byte("Exif\x00\x00"))`
abbrev pub has_exif : Bytes → Bool
has_exif segment = bytes_eq (take 6 segment) (ascii "Exif" ++ 0 ∷ 0 ∷ [])

unfoldable pub segment_orientation : ℕ → Bytes → Run (Option ℕ)
segment_orientation marker segment =
    if marker == 0xe1 && has_exif segment
    then slice segment 6 (length segment) >>= exif_orientation
    else returns none

-- What follows a marker; `again` is the next round, from an offset.
unfoldable pub after_marker : Bytes → ℕ → ℕ → (ℕ → Run Search) → Run Search
after_marker b marker offset again =
    if marker == 0xda || marker == 0xd9
    then returns unavailable
    else if marker == 0xd8 || (leb 0xd0 marker && leb marker 0xd7)
    then again offset
    else if ltb (length b) (offset + 2)
    then returns unavailable
    else do
      size ← uint16_at big_endian b offset
      if ltb size 2 || ltb (length b) (offset + 2 + size - 2) then returns unavailable else do
        segment ← slice b (offset + 2) (offset + 2 + size - 2)
        found ← segment_orientation marker segment
        elim found [ some o ↦ returns (oriented o) | none ↦ again (offset + 2 + (size - 2)) ]

-- The loop, for a number of rounds.
unfoldable pub search_from : ℕ → Bytes → ℕ → Run Search
search_from zero b offset = returns unfinished
search_from (suc rounds) b offset = if ltb (length b) (offset + 4) then returns unavailable else do
  first ← index b offset
  if not (first == 0xff)
      then returns unavailable
      else let offset' = offset + fill (drop offset b) in
        if leb (length b) offset'
        then returns unavailable
        else do marker ← index b offset'; after_marker b marker (offset' + 1) (search_from rounds b)

abbrev pub is_jpeg : Bytes → Bool
is_jpeg (a ∷ b ∷ rest) = a == 0xff && b == 0xd8
is_jpeg _ = false

-- `extension` is in lower case, and `contents` is `none` if the file cannot be read. A file is read
-- up to 1 MiB, and each round of the loop moves on in it.
unfoldable pub jpeg_orientation : Bytes → Option Bytes → Run Search
jpeg_orientation extension none = returns unavailable
jpeg_orientation extension (some contents) =
    let b = take (2 ^ 20) contents in
    if not (bytes_eq extension (ascii ".jpg") || bytes_eq extension (ascii ".jpeg"))
    then returns unavailable
    else if not (is_jpeg b)
    then returns unavailable
    else search_from (length b) b 2
