-- ===== src/TextOps/Manifest.antt =====
-- Manifest, validID and validManifest of daemon/internal/inputops/text.go.
use phonepad.Base.{
  ==_iff, Bool, Bytes, [], arith, bytes_eq, bytes_eq_iff, eq_ℤ, eq_ℤ_iff, false, if◌then◌else◌, leb,
  leb_ℤ, length, ltb, ltb_ℤ, none, pos, some, true, ℕ, ℤ, ◌&&◌, ◌*◌, ◌<◌, ◌==◌, ◌||◌, ◌↔◌, ◌∷◌, ◌≡◌,
  ◌≤ℤ◌, ◌≤◌,
}
use phonepad.TextOps.Hex.{hex_encode, hex_decode}

abbrev pub version : ℕ
version = 1

abbrev pub max_text_bytes : ℕ
max_text_bytes = 128 * 1024

abbrev pub max_chunk_bytes : ℕ
max_chunk_bytes = 16 * 1024

abbrev pub max_chunks : ℕ
max_chunks = 128

abbrev pub max_operations : ℕ
max_operations = 64

abbrev max_sequence : ℕ
max_sequence = 9007199254740991

-- `version` and `bytes` are Go's int, `sequence` is a uint64.
pub record Manifest : Type 0 where
  pub version : ℤ
  pub operation_id : Bytes
  pub session : Bytes
  pub context : Bytes
  pub sequence : ℕ
  pub bytes : ℤ
  pub sha256 : Bytes

abbrev id_char : ℕ → Bool
id_char c =
    leb b'a' c && leb c b'z'
    || leb b'A' c && leb c b'Z'
    || leb b'0' c && leb c b'9'
    || c == b'-'
    || c == b'_'

id_chars : Bytes → Bool
id_chars [] = true
id_chars (c ∷ s) = id_char c && id_chars s

-- The loop reads runes: a byte above 0x7f is part of no rune that the test admits.
unfoldable pub valid_id : Bytes → Bool
unfolding id_chars
valid_id s = if length s == 0 || ltb 64 (length s) then false else id_chars s

valid_hash : Bytes → Bool
valid_hash s = elim (hex_decode s) [
  | none ↦ false
  | some hash ↦ length hash == 32 && bytes_eq (hex_encode hash) s
]

unfoldable pub valid_manifest : Manifest → Bool
unfolding valid_hash
valid_manifest m =
    eq_ℤ m.version (pos version)
    && valid_id m.operation_id
    && valid_id m.session
    && valid_id m.context
    && ltb 0 m.sequence
    && leb m.sequence max_sequence
    && ltb_ℤ (pos 0) m.bytes
    && leb_ℤ m.bytes (pos max_text_bytes)
    && valid_hash m.sha256

-- Go's `==` on two manifests compares every field.
unfoldable pub manifest_eq : Manifest → Manifest → Bool
manifest_eq a b =
    eq_ℤ a.version b.version
    && bytes_eq a.operation_id b.operation_id
    && bytes_eq a.session b.session
    && bytes_eq a.context b.context
    && a.sequence == b.sequence
    && eq_ℤ a.bytes b.bytes
    && bytes_eq a.sha256 b.sha256

pub manifest_eq_iff : (a b : Manifest) → (manifest_eq a b ≡ true) ↔ (a ≡ b)
unfolding manifest_eq
manifest_eq_iff a b = ground (
  arith,
  eq_ℤ_iff a.version b.version,
  bytes_eq_iff a.operation_id b.operation_id,
  bytes_eq_iff a.session b.session,
  bytes_eq_iff a.context b.context,
  ==_iff a.sequence b.sequence,
  eq_ℤ_iff a.bytes b.bytes,
  bytes_eq_iff a.sha256 b.sha256,
)

-- What an accepted manifest promises of its size and its place in the session.
pub record InBounds (m : Manifest) : Type 0 where
  pub placed : 0 < m.sequence
  pub exact : m.sequence ≤ max_sequence
  pub some_text : pos 1 ≤ℤ m.bytes
  pub not_more : m.bytes ≤ℤ pos max_text_bytes

pub valid_manifest-InBounds : (m : Manifest) → valid_manifest m ≡ true → InBounds m
unfolding valid_manifest
valid_manifest-InBounds m h = ground arith
