-- ===== src/Clipboard/Found.antt =====
-- That the search of daemon/internal/server/clipboard.go for an orientation ends, and reads in range.
use phonepad.Base.{
  Bool-cases, Bytes, Option, [], arith, ascii, bytes_eq, drop, if_case, if◌then◌else◌, inl, inr,
  leb, length, ltb, none, not, some, suc, take, true, zero, ℕ, ◌&&◌, ◌*◌, ◌+◌, ◌-◌, ◌/◌, ◌<◌, ◌==◌,
  ◌^◌, ◌||◌, ◌∷◌, ◌≡◌, ◌≤◌,
}
use phonepad.Clipboard.Reading.{
  Run, ByteOrder, returns, panics, ◌>>=◌, uint16_at, big_endian, index, slice,
}
use phonepad.Clipboard.Ranges.{uint16_at-returns, uint32_at-returns, slice-returns, index-returns}
use phonepad.Clipboard.Exif.{
  entry_orientation, directory_orientation, entries_orientation, exif_orientation,
}
use phonepad.Clipboard.Jpeg.{
  Search, oriented, unavailable, unfinished, has_exif, segment_orientation, after_marker, fill,
  is_jpeg, jpeg_orientation, search_from,
}

abbrev IsOrientation : Run (Option ℕ) → Type 0
IsOrientation panics = ⊥
IsOrientation (returns none) = Unit
IsOrientation (returns (some k)) = (1 ≤ k) × (k ≤ 8)

-- An error, or an orientation from 1 to 8; neither a panic nor a search that is not done.
abbrev pub IsDone : Run Search → Type 0
IsDone panics = ⊥
IsDone (returns unavailable) = Unit
IsDone (returns unfinished) = ⊥
IsDone (returns (oriented k)) = (1 ≤ k) × (k ≤ 8)

entry_orientation-IsOrientation :
    (o : ByteOrder) (entry : Bytes) → length entry ≡ 12 → IsOrientation (entry_orientation o entry)
unfolding entry_orientation
entry_orientation-IsOrientation o entry n =
    let (tag, e) = uint16_at-returns o entry 0 (omega (arith, n)) in
    let (kind, e') = uint16_at-returns o entry 2 (omega (arith, n)) in
    let (count, e'') = uint32_at-returns o entry 4 (omega (arith, n)) in
    let (k, e''') = uint16_at-returns o entry 8 (omega (arith, n)) in
    rw (e, e', e'', e''') (ground arith)

entries_orientation-IsOrientation :
    (o : ByteOrder) (b : Bytes) (ifd i left : ℕ)
    → ifd + 2 + (i + left) * 12 ≤ length b
    → IsOrientation (entries_orientation o b ifd i left)
unfolding entries_orientation
entries_orientation-IsOrientation o b ifd i zero h = tt
entries_orientation-IsOrientation o b ifd i (suc left) h =
    let (entry, e, n) =
      slice-returns b (ifd + 2 + i * 12) (ifd + 14 + i * 12) (omega arith) (omega arith) in
    let one = entry_orientation-IsOrientation o entry (omega (arith, n)) in
    let rest = entries_orientation-IsOrientation o b ifd (suc i) left (omega arith) in
    rw e (found (entry_orientation o entry) one rest)
  where
    found :
        (r : Run (Option ℕ))
        → IsOrientation r
        → IsOrientation (entries_orientation o b ifd (suc i) left)
        → IsOrientation (
            r >>= λ x. elim x [
              | some k ↦ returns (some k)
              | none ↦ entries_orientation o b ifd (suc i) left
            ])
    found panics v w = v
    found (returns none) v w = w
    found (returns (some k)) v w = v

directory_orientation-IsOrientation :
    (o : ByteOrder) (b : Bytes) → 8 ≤ length b → IsOrientation (directory_orientation o b)
unfolding directory_orientation
directory_orientation-IsOrientation o b n =
    let (magic, e) = uint16_at-returns o b 2 (omega arith) in
    let (ifd, e') = uint32_at-returns o b 4 (omega arith) in
    rw (e, e')
      (if_case IsOrientation (not (magic == 42)) _ _ (λ _. tt)
        (λ _.
          if_case IsOrientation (ltb (length b) (ifd + 2)) _ _ (λ _. tt)
            (λ f. read ifd (ground arith))))
  where
    read :
        (ifd : ℕ)
        → ifd + 2 ≤ length b
        → IsOrientation (
            uint16_at o b ifd >>= λ entries.
            if ltb ((length b - ifd - 2) / 12) entries
            then returns none
            else entries_orientation o b ifd 0 entries)
    read ifd h =
        let (entries, e) = uint16_at-returns o b ifd h in
        rw e (
          if_case IsOrientation (ltb ((length b - ifd - 2) / 12) entries) _ _ (λ _. tt)
            (λ g.
              let k : entries ≤ (length b - ifd - 2) / 12 = ground arith in
              entries_orientation-IsOrientation o b ifd 0 entries (omega arith)))

exif_orientation-IsOrientation : (b : Bytes) → IsOrientation (exif_orientation b)
unfolding exif_orientation
exif_orientation-IsOrientation b =
    if_case IsOrientation (ltb (length b) 8) _ _ (λ _. tt)
      (λ f.
        let n : 8 ≤ length b = ground arith in
        let (mark, e, k) = slice-returns b 0 2 (omega arith) (omega arith) in rw e (ordered n _))
  where
    ordered :
        8 ≤ length b
        → (order : Option ByteOrder)
        → IsOrientation (elim order [ none ↦ returns none | some o ↦ directory_orientation o b ])
    ordered n none = tt
    ordered n (some o) = directory_orientation-IsOrientation o b n

has_exif-length : (s : Bytes) → has_exif s ≡ true → 6 ≤ length s
unfolding bytes_eq
has_exif-length [] h = ground arith
has_exif-length (a ∷ []) h = ground arith
has_exif-length (a ∷ b ∷ []) h = ground arith
has_exif-length (a ∷ b ∷ c ∷ []) h = ground arith
has_exif-length (a ∷ b ∷ c ∷ d ∷ []) h = ground arith
has_exif-length (a ∷ b ∷ c ∷ d ∷ e ∷ []) h = ground arith
has_exif-length (a ∷ b ∷ c ∷ d ∷ e ∷ f ∷ s) h = omega arith

segment_orientation-IsOrientation :
    (marker : ℕ) (segment : Bytes) → IsOrientation (segment_orientation marker segment)
unfolding segment_orientation
segment_orientation-IsOrientation marker segment =
    elim (Bool-cases (marker == 0xe1 && has_exif segment)) [
      | inr e ↦ rw e tt
      | inl e ↦
          let n = has_exif-length segment (ground arith) in
          let (s, e', k) = slice-returns segment 6 (length segment) n (omega arith) in
          rw (e, e') (exif_orientation-IsOrientation s)
    ]

after_marker-IsDone :
    (b : Bytes) (marker offset : ℕ) (again : ℕ → Run Search)
    → offset ≤ length b
    → ((o : ℕ) → offset ≤ o → o ≤ length b → IsDone (again o))
    → IsDone (after_marker b marker offset again)
unfolding after_marker
after_marker-IsDone b marker offset again n next =
    if_case IsDone (marker == 0xda || marker == 0xd9) _ _ (λ _. tt)
      (λ _.
        if_case IsDone (marker == 0xd8 || (leb 0xd0 marker && leb marker 0xd7)) _ _
          (λ _. next offset (omega arith) n)
          (λ _.
            if_case IsDone (ltb (length b) (offset + 2)) _ _ (λ _. tt) (λ f. sized (ground arith))))
  where
    found :
        (o : ℕ) (r : Run (Option ℕ))
        → IsOrientation r
        → IsDone (again o)
        → IsDone (r >>= λ x. elim x [ some k ↦ returns (oriented k) | none ↦ again o ])
    found o panics v w = v
    found o (returns none) v w = w
    found o (returns (some k)) v w = v

    sized :
        offset + 2 ≤ length b
        → IsDone (
            uint16_at big_endian b offset >>= λ size.
            if ltb size 2 || ltb (length b) (offset + 2 + size - 2)
            then returns unavailable
            else (slice b (offset + 2) (offset + 2 + size - 2) >>= λ segment.
                segment_orientation marker segment >>= λ x. elim x [
                  | some k ↦ returns (oriented k)
                  | none ↦ again (offset + 2 + (size - 2))
                ]))
    sized h =
        let (size, e) = uint16_at-returns big_endian b offset h in
        rw e (
          if_case IsDone (ltb size 2 || ltb (length b) (offset + 2 + size - 2)) _ _ (λ _. tt)
            (λ f.
              let k : 2 ≤ size = ground arith in
              let k' : offset + 2 + size - 2 ≤ length b = ground arith in
              let (segment, e', _) =
                slice-returns b (offset + 2) (offset + 2 + size - 2) (omega arith) k' in
              rw e' (
                found (offset + 2 + (size - 2)) (segment_orientation marker segment)
                  (segment_orientation-IsOrientation marker segment)
                  (next (offset + 2 + (size - 2)) (omega arith) (omega arith)))))

search_from-IsDone :
    (rounds : ℕ) (b : Bytes) (offset : ℕ)
    → offset ≤ length b
    → length b < offset + rounds
    → IsDone (search_from rounds b offset)
unfolding search_from
search_from-IsDone zero b offset n h = absurd (omega arith)
search_from-IsDone (suc rounds) b offset n h =
    if_case IsDone (ltb (length b) (offset + 4)) _ _ (λ _. tt)
      (λ f. first (ground arith) h (λ o. search_from-IsDone rounds b o))
  where
    first :
        offset + 4 ≤ length b
        → length b < offset + suc rounds
        → ((o : ℕ) → o ≤ length b → length b < o + rounds → IsDone (search_from rounds b o))
        → IsDone (
            index b offset >>= λ x.
            if not (x == 0xff)
            then returns unavailable
            else if leb (length b) (offset + fill (drop offset b))
            then returns unavailable
            else (index b (offset + fill (drop offset b)) >>= λ marker.
                after_marker b marker (offset + fill (drop offset b) + 1) (search_from rounds b)))
    first h l' next =
        let (x, e) = index-returns b offset (omega arith) in
        rw e (
          if_case IsDone (not (x == 0xff)) _ _ (λ _. tt)
            (λ _.
              if_case IsDone (leb (length b) (offset + fill (drop offset b))) _ _ (λ _. tt)
                (λ g.
                  let k : offset + fill (drop offset b) < length b = ground arith in
                  let (marker, e') = index-returns b (offset + fill (drop offset b)) k in
                  rw e' (
                    after_marker-IsDone b marker (offset + fill (drop offset b) + 1)
                      (search_from rounds b) (omega arith) (λ o l m. next o m (omega arith))))))

-- jpegOrientation ends on every file with an error or an orientation from 1 to 8: no index or slice
-- of it is out of range, and its loop comes to an end, whatever lengths and offsets the file names.
pub jpeg_orientation-IsDone :
    (extension : Bytes) (contents : Option Bytes) → IsDone (jpeg_orientation extension contents)
unfolding jpeg_orientation
jpeg_orientation-IsDone extension none = tt
jpeg_orientation-IsDone extension (some contents) =
    if_case IsDone (not (bytes_eq extension (ascii ".jpg") || bytes_eq extension (ascii ".jpeg"))) _
      _ (λ _. tt) (λ _. started (take (2 ^ 20) contents))
  where
    started :
        (b : Bytes)
        → IsDone (if not (is_jpeg b) then returns unavailable else search_from (length b) b 2)
    started [] = tt
    started (x ∷ []) = tt
    started (x ∷ y ∷ b) =
        if_case IsDone (not (x == 0xff && y == 0xd8)) _ _ (λ _. tt)
          (λ _. search_from-IsDone (suc (suc (length b))) (x ∷ y ∷ b) 2 (omega arith) (omega arith))
