-- ===== src/FileBatches/Manifest.antt =====
-- Limits, manifests and their validation, of daemon/internal/filebatches/store.go and validate.go.
use phonepad.Base.{
  Bool, Bytes, List, Option, [], ascii, bytes_eq, eq_ℤ, false, if◌then◌else◌, leb, length, ltb,
  ltb_ℤ, negsuc, none, not, one_of, pos, pos_part, some, suc, true, zero, ℕ, ℤ, ◌&&◌, ◌*◌, ◌+◌, ◌-◌,
  ◌==◌, ◌^◌, ◌||◌, ◌∷◌,
}

abbrev pub schema_version : ℕ
schema_version = 2

abbrev default_max_files : ℕ
default_max_files = 20

abbrev default_max_total_bytes : ℕ
default_max_total_bytes = 100 * 2 ^ 20

abbrev default_max_chunk_bytes : ℕ
default_max_chunk_bytes = 2 ^ 20

abbrev default_max_staging : ℕ
default_max_staging = 4

abbrev default_max_total_staging : ℕ
default_max_total_staging = 128

-- 24 hours in nanoseconds
abbrev default_ttl : ℕ
default_ttl = 24 * 3600 * 10 ^ 9

-- The fields of a LimitSet that an embedding program may set.
pub record LimitSet : Type 0 where
  pub max_files : ℤ
  pub max_total_bytes : ℤ
  pub max_chunk_bytes : ℤ
  pub max_staging : ℤ
  pub max_total_staging : ℤ
  pub ttl : ℤ

-- What limitSnapshot makes of them.
pub record Limits : Type 0 where
  pub max_files : ℕ
  pub max_total_bytes : ℕ
  pub max_chunk_bytes : ℕ
  pub max_staging : ℕ
  pub max_total_staging : ℕ
  pub ttl : ℕ

abbrev or_default : ℤ → ℕ → ℕ
or_default (pos zero) d = d
or_default (pos (suc n)) d = suc n
or_default (negsuc n) d = d

unfoldable pub limit_snapshot : LimitSet → Limits
limit_snapshot l = record {
  max_files = or_default l.max_files default_max_files;
  max_total_bytes = or_default l.max_total_bytes default_max_total_bytes;
  max_chunk_bytes = or_default l.max_chunk_bytes default_max_chunk_bytes;
  max_staging = or_default l.max_staging default_max_staging;
  max_total_staging = or_default l.max_total_staging default_max_total_staging;
  ttl = or_default l.ttl default_ttl;
}

-- `refused` is the error of a guard.
pub data Error : Type 0 where
  invalid conflict not_found capacity expired corrupt incomplete refused : Error

-- `bytes_set` plays no part after the decoding and is left out.
pub record FileSpec : Type 0 where
  pub name : Bytes
  pub type : Bytes
  pub bytes : ℤ
  pub sha256 : Bytes

pub record BatchManifest : Type 0 where
  pub version : ℤ
  pub id : Bytes
  pub files : List FileSpec

abbrev lower_hex : ℕ → Bool
lower_hex c = leb b'0' c && leb c b'9' || leb b'a' c && leb c b'f'

-- The rest of a UUID from the position `i` on.
uuid_from : ℕ → Bytes → Bool
uuid_from i [] = i == 36
uuid_from i (c ∷ s) =
    let rest = uuid_from (suc i) s in
    if i == 8 || i == 13 || i == 18 || i == 23 then c == b'-' && rest else lower_hex c && rest

unfoldable pub validate_id : Bytes → Bool
unfolding uuid_from
validate_id id = uuid_from 0 id

all_lower_hex : Bytes → Bool
all_lower_hex [] = true
all_lower_hex (c ∷ s) = lower_hex c && all_lower_hex s

-- Hexadecimal that strings.ToLower leaves alone has no capitals.
unfoldable pub validate_hash : Bytes → Bool
unfolding all_lower_hex
validate_hash sum = length sum == 64 && all_lower_hex sum

-- A rune of unicode.IsControl: below 0x20, 0x7f, or U+0080 to U+009F, which is 0xc2 and one byte.
-- Neither an ASCII byte nor 0xc2 is ever the later part of another rune.
unfoldable pub has_control : Bytes → Bool
has_control [] = false
has_control (c ∷ []) = ltb c 0x20 || c == 0x7f
has_control (c ∷ d ∷ s) =
    let rest = has_control (d ∷ s) in
    ltb c 0x20 || c == 0x7f || c == 0xc2 && leb 0x80 d && leb d 0x9f || rest

has_separator : Bytes → Bool
has_separator [] = false
has_separator (c ∷ s) = c == b'/' || c == b'\\' || has_separator s

unfoldable pub validate_filename : Bytes → Bool
unfolding has_separator
validate_filename name =
    if one_of name ([] ∷ ascii "." ∷ ascii ".." ∷ [])
    then false
    else if ltb 180 (length name)
    then false
    else if has_separator name
    then false
    else not (has_control name)

-- The loop over the files, with the total of those before.
validate_files : Limits → ℕ → List FileSpec → Option Error
validate_files l total [] = none
validate_files l total (f ∷ fs) =
    let later = validate_files l (total + pos_part f.bytes) fs in
    if not (validate_filename f.name)
    then some invalid
    else if ltb 128 (length f.type) || has_control f.type
    then some invalid
    else if ltb_ℤ f.bytes (pos 0)
    then some invalid
    else if ltb l.max_total_bytes (pos_part f.bytes)
        || ltb (l.max_total_bytes - pos_part f.bytes) total
    then some capacity
    else if not (validate_hash f.sha256)
    then some invalid
    else later

unfoldable pub validate_manifest : Limits → BatchManifest → Option Error
unfolding validate_files
validate_manifest l m =
    if not (eq_ℤ m.version (pos schema_version))
    then some invalid
    else if not (validate_id m.id)
    then some invalid
    else if length m.files == 0
    then some invalid
    else if ltb l.max_files (length m.files)
    then some capacity
    else validate_files l 0 m.files

unfoldable pub specs_equal : List FileSpec → List FileSpec → Bool
specs_equal [] [] = true
specs_equal (a ∷ as_) (b ∷ bs) =
    let rest = specs_equal as_ bs in
    bytes_eq a.name b.name
    && bytes_eq a.type b.type
    && eq_ℤ a.bytes b.bytes
    && bytes_eq a.sha256 b.sha256
    && rest
specs_equal _ _ = false

unfoldable pub manifests_equal : BatchManifest → BatchManifest → Bool
manifests_equal a b = eq_ℤ a.version b.version && bytes_eq a.id b.id && specs_equal a.files b.files
