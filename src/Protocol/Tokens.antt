-- ===== src/Protocol/Tokens.antt =====
-- The names and tokens of daemon/internal/server/protocol.go, and validSessionEpoch of
-- daemon/internal/server/capabilities.go.
use phonepad.Base.{
  Bool, Bytes, [], ascii, false, if◌then◌else◌, is_empty, leb, length, ltb, negsuc, one_of, pos,
  suc, true, ℕ, ℤ, ◌&&◌, ◌==◌, ◌||◌, ◌∷◌,
}

abbrev max_session_epoch_bytes : ℕ
max_session_epoch_bytes = 128

abbrev token_char : ℕ → Bool
token_char c =
    leb b'a' c && leb c b'z'
    || leb b'A' c && leb c b'Z'
    || leb b'0' c && leb c b'9'
    || c == b'-'
    || c == b'_'

-- The loop reads runes: a byte above 0x7f is part of no rune that the test admits.
unfoldable pub token_chars : Bytes → Bool
token_chars [] = true
token_chars (c ∷ s) = token_char c && token_chars s

unfoldable pub valid_session_epoch : Bytes → Bool
valid_session_epoch value =
    if is_empty value
    then true
    else if ltb max_session_epoch_bytes (length value)
    then false
    else token_chars value

unfoldable pub valid_operation_id : Bytes → Bool
valid_operation_id id =
    if is_empty id then true else if ltb 64 (length id) then false else token_chars id

abbrev pub valid_phase : Bytes → Bool
valid_phase phase =
    is_empty phase || one_of phase (ascii "press" ∷ ascii "repeat" ∷ ascii "cancel" ∷ [])

abbrev pub abs_bound : ℤ → ℕ → Bool
abs_bound (pos n) max = leb n max
abs_bound (negsuc n) max = ltb n max

unfoldable pub valid_special : Bytes → Bool
valid_special k = one_of k (
    ascii "Backspace"
    ∷ ascii "Enter"
    ∷ ascii "Tab"
    ∷ ascii "Escape"
    ∷ ascii "ArrowUp"
    ∷ ascii "ArrowDown"
    ∷ ascii "ArrowLeft"
    ∷ ascii "ArrowRight"
    ∷ ascii "Delete"
    ∷ ascii "Home"
    ∷ ascii "End"
    ∷ ascii "PageUp"
    ∷ ascii "PageDown"
    ∷ ascii "Super"
    ∷ [])

-- utf8.RuneCountInString of a valid string: every byte but the continuation bytes starts a rune.
unfoldable pub rune_count : Bytes → ℕ
rune_count [] = 0
rune_count (b ∷ s) = let n = rune_count s in if leb 0x80 b && leb b 0xbf then n else suc n

unfoldable pub valid_combo_key : Bytes → Bool
valid_combo_key k = valid_special k || rune_count k == 1
