-- ===== src/TextOps/Hex.antt =====
-- encoding/hex, as daemon/internal/inputops/text.go uses it.
use phonepad.Base.{
  All, Bytes, Option, [], arith, if◌then◌else◌, leb, ltb, none, refl, some, ℕ, ◌%◌, ◌&&◌, ◌*◌, ◌+◌,
  ◌-◌, ◌/◌, ◌<◌, ◌∷◌, ◌≡◌,
}

abbrev hex_digit : ℕ → ℕ
hex_digit n = if ltb n 10 then b'0' + n else b'a' + n - 10

-- hex.EncodeToString
unfoldable pub hex_encode : Bytes → Bytes
hex_encode [] = []
hex_encode (b ∷ s) = hex_digit (b / 16) ∷ hex_digit (b % 16) ∷ hex_encode s

abbrev from_hex_digit : ℕ → Option ℕ
from_hex_digit c =
    if leb b'0' c && leb c b'9'
    then some (c - b'0')
    else if leb b'a' c && leb c b'f'
    then some (c - b'a' + 10)
    else if leb b'A' c && leb c b'F'
    then some (c - b'A' + 10)
    else none

hex_pair : ℕ → ℕ → Option ℕ
hex_pair hi lo = elim (from_hex_digit hi) [
  | none ↦ none
  | some a ↦ elim (from_hex_digit lo) [ none ↦ none | some b ↦ some (16 * a + b) ]
]

hex_cons : Option ℕ → Option Bytes → Option Bytes
hex_cons none rest = none
hex_cons (some b) none = none
hex_cons (some b) (some s) = some (b ∷ s)

-- hex.DecodeString; `none` is an error, which an odd length is too.
unfoldable pub hex_decode : Bytes → Option Bytes
unfolding hex_pair hex_cons
hex_decode [] = some []
hex_decode (hi ∷ []) = none
hex_decode (hi ∷ lo ∷ s) = hex_cons (hex_pair hi lo) (hex_decode s)

hex_pair_digits : (b : ℕ) → b < 256 → hex_pair (hex_digit (b / 16)) (hex_digit (b % 16)) ≡ some b
unfolding hex_pair
hex_pair_digits b h = ground arith

-- Decoding undoes encoding.
pub decode-encode : (s : Bytes) → All (λ b. b < 256) s → hex_decode (hex_encode s) ≡ some s
unfolding hex_encode hex_decode
decode-encode [] h = refl
decode-encode (b ∷ s) h = ground (arith, hex_pair_digits b h.0, decode-encode s h.1)
