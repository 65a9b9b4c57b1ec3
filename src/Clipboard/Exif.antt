-- ===== src/Clipboard/Exif.antt =====
-- parseEXIFOrientation of daemon/internal/server/clipboard.go. The result without an orientation is
-- `none`.
use phonepad.Base.{
  Bytes, Option, ascii, bytes_eq, if◌then◌else◌, leb, length, ltb, none, not, some, suc, zero, ℕ,
  ◌&&◌, ◌*◌, ◌+◌, ◌-◌, ◌/◌, ◌==◌,
}
use phonepad.Clipboard.Reading.{
  Run, ByteOrder, returns, ◌>>=◌, big_endian, little_endian, slice, uint16_at, uint32_at,
}

-- The byte order that the first two bytes name.
order_of : Bytes → Option ByteOrder
order_of mark =
    if bytes_eq mark (ascii "II")
    then some little_endian
    else if bytes_eq mark (ascii "MM")
    then some big_endian
    else none

-- One entry of the directory; `none` goes on to the next.
unfoldable pub entry_orientation : ByteOrder → Bytes → Run (Option ℕ)
entry_orientation order entry = do
  tag ← uint16_at order entry 0
  if not (tag == 0x112) then returns none else do
    kind ← uint16_at order entry 2
    if not (kind == 3) then returns none else do
      count ← uint32_at order entry 4
      if not (count == 1) then returns none else do
        orientation ← uint16_at order entry 8
        returns (if leb 1 orientation && leb orientation 8 then some orientation else none)

-- The loop over the entries, with the number of those that are left.
unfoldable pub entries_orientation : ByteOrder → Bytes → ℕ → ℕ → ℕ → Run (Option ℕ)
entries_orientation order b ifd i zero = returns none
entries_orientation order b ifd i (suc left) = do
  entry ← slice b (ifd + 2 + i * 12) (ifd + 14 + i * 12)
  found ← entry_orientation order entry
  elim found [ some o ↦ returns (some o) | none ↦ entries_orientation order b ifd (suc i) left ]

unfoldable pub directory_orientation : ByteOrder → Bytes → Run (Option ℕ)
directory_orientation order b = do
  magic ← uint16_at order b 2
  if not (magic == 42) then returns none else do
    ifd ← uint32_at order b 4
    if ltb (length b) (ifd + 2) then returns none else do
      entries ← uint16_at order b ifd
      if ltb ((length b - ifd - 2) / 12) entries
          then returns none
          else entries_orientation order b ifd 0 entries

unfoldable pub exif_orientation : Bytes → Run (Option ℕ)
unfolding order_of
exif_orientation b = if ltb (length b) 8 then returns none else do
  mark ← slice b 0 2
  elim (order_of mark) [ none ↦ returns none | some order ↦ directory_orientation order b ]
