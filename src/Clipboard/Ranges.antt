-- ===== src/Clipboard/Ranges.antt =====
-- The reads of daemon/internal/server/clipboard.go that are in range.
use phonepad.Base.{
  Bytes, [], arith, drop, length, length-drop, refl, suc, take, zero, ℕ, ◌+◌, ◌-◌, ◌<◌, ◌∷◌, ◌≡◌,
  ◌≤◌,
}
use phonepad.Clipboard.Reading.{
  ByteOrder, returns, big_endian, index, little_endian, slice, uint16, uint16_at, uint32, uint32_at,
}

pub length-take : (n : ℕ) (b : Bytes) → n ≤ length b → length (take n b) ≡ n
length-take zero b h = refl
length-take (suc n) [] h = ground arith
length-take (suc n) (x ∷ b) h = omega (arith, length-take n b (omega arith))

pub slice-returns :
    (b : Bytes) (i j : ℕ)
    → i ≤ j
    → j ≤ length b
    → (s : Bytes) × (slice b i j ≡ returns s) × (length s ≡ j - i)
unfolding slice
slice-returns b i j h k = (take (j - i) (drop i b), ground arith, n)
  where
    n : length (take (j - i) (drop i b)) ≡ j - i
    n = length-take (j - i) (drop i b) (omega (arith, length-drop i b))

pub index-returns : (b : Bytes) (i : ℕ) → i < length b → (x : ℕ) × (index b i ≡ returns x)
index-returns [] i h = absurd (omega arith)
index-returns (x ∷ b) zero h = (x, refl)
index-returns (x ∷ b) (suc i) h = index-returns b i (omega arith)

uint16-returns : (o : ByteOrder) (b : Bytes) → 2 ≤ length b → (x : ℕ) × (uint16 o b ≡ returns x)
unfolding uint16
uint16-returns o [] h = absurd (omega arith)
uint16-returns o (x ∷ []) h = absurd (omega arith)
uint16-returns big_endian (x ∷ y ∷ b) h = (_, refl)
uint16-returns little_endian (x ∷ y ∷ b) h = (_, refl)

uint32-returns : (o : ByteOrder) (b : Bytes) → 4 ≤ length b → (x : ℕ) × (uint32 o b ≡ returns x)
unfolding uint32
uint32-returns o [] h = absurd (omega arith)
uint32-returns o (x ∷ []) h = absurd (omega arith)
uint32-returns o (x ∷ y ∷ []) h = absurd (omega arith)
uint32-returns o (x ∷ y ∷ z ∷ []) h = absurd (omega arith)
uint32-returns big_endian (x ∷ y ∷ z ∷ w ∷ b) h = (_, refl)
uint32-returns little_endian (x ∷ y ∷ z ∷ w ∷ b) h = (_, refl)

pub uint16_at-returns :
    (o : ByteOrder) (b : Bytes) (i : ℕ) → i + 2 ≤ length b → (x : ℕ) × (uint16_at o b i ≡ returns x)
unfolding uint16_at
uint16_at-returns o b i h =
    let (s, e, n) = slice-returns b i (i + 2) (omega arith) h in
    let (x, e') = uint16-returns o s (omega (arith, n)) in (x, rw e e')

pub uint32_at-returns :
    (o : ByteOrder) (b : Bytes) (i : ℕ) → i + 4 ≤ length b → (x : ℕ) × (uint32_at o b i ≡ returns x)
unfolding uint32_at
uint32_at-returns o b i h =
    let (s, e, n) = slice-returns b i (i + 4) (omega arith) h in
    let (x, e') = uint32-returns o s (omega (arith, n)) in (x, rw e e')
