-- ===== src/Clipboard/Reading.antt =====
-- Go's indexing and slicing of a []byte, as daemon/internal/server/clipboard.go uses them, with the
-- panic out of range. A slice may not end after its length here, which is stricter than Go's capacity.
use phonepad.Base.{
  Bytes, drop, get_elem?, if◌then◌else◌, leb, length, none, some, take, ℕ, ◌&&◌, ◌*◌, ◌+◌, ◌-◌, ◌∷◌,
}

pub data Run {ℓ} (A : Type ℓ) : Type ℓ where
  panics : Run A
  returns : A → Run A

infixl 5 ◌>>=◌
abbrev pub ◌>>=◌ {ℓ κ} : {A : Type ℓ} {B : Type κ} → Run A → (A → Run B) → Run B
panics >>= f = panics
returns a >>= f = f a

-- `data[i]`
abbrev pub index : Bytes → ℕ → Run ℕ
index b i = elim (get_elem? b i) [ none ↦ panics | some x ↦ returns x ]

-- `data[i:j]`
unfoldable pub slice : Bytes → ℕ → ℕ → Run Bytes
slice b i j = if leb i j && leb j (length b) then returns (take (j - i) (drop i b)) else panics

pub data ByteOrder : Type 0 where
  big_endian little_endian : ByteOrder

-- binary.ByteOrder.Uint16 and Uint32
unfoldable pub uint16 : ByteOrder → Bytes → Run ℕ
uint16 big_endian (a ∷ b ∷ rest) = returns (a * 256 + b)
uint16 little_endian (a ∷ b ∷ rest) = returns (a + b * 256)
uint16 order _ = panics

unfoldable pub uint32 : ByteOrder → Bytes → Run ℕ
uint32 big_endian (a ∷ b ∷ c ∷ d ∷ rest) = returns (((a * 256 + b) * 256 + c) * 256 + d)
uint32 little_endian (a ∷ b ∷ c ∷ d ∷ rest) = returns (a + 256 * (b + 256 * (c + 256 * d)))
uint32 order _ = panics

-- `order.Uint16(data[i:i+2])` and `order.Uint32(data[i:i+4])`
unfoldable pub uint16_at : ByteOrder → Bytes → ℕ → Run ℕ
uint16_at order b i = slice b i (i + 2) >>= uint16 order

unfoldable pub uint32_at : ByteOrder → Bytes → ℕ → Run ℕ
uint32_at order b i = slice b i (i + 4) >>= uint32 order
