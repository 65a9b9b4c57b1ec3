-- ===== src/Keyboard/Keymap.antt =====
-- The tables of daemon/internal/input/keymap.go. `uinput` gives the value of a constant of the
-- uinput library by its name.
use Prim.Native.String.{String}
use phonepad.Base.{
  Bool, Bytes, List, Option, [], ascii, false, if◌then◌else◌, none, some, true, ℕ, ◌==◌, ◌∷◌,
}

-- The entry of a Go map with integer keys that no key of the table repeats.
abbrev find_rune : ℕ → List (ℕ × ℕ) → Option ℕ
find_rune r [] = none
find_rune r ((k, v) ∷ rest) = let found = find_rune r rest in if k == r then some v else found

module _ (uinput : Bytes → ℕ) where
  abbrev key : String → ℕ
  key name = uinput (ascii name)

  unfoldable pub special_keys : List (Bytes × ℕ)
  special_keys =
      (ascii "Backspace", key "KeyBackspace")
      ∷ (ascii "Enter", key "KeyEnter")
      ∷ (ascii "Tab", key "KeyTab")
      ∷ (ascii "Escape", key "KeyEsc")
      ∷ (ascii "ArrowUp", key "KeyUp")
      ∷ (ascii "ArrowDown", key "KeyDown")
      ∷ (ascii "ArrowLeft", key "KeyLeft")
      ∷ (ascii "ArrowRight", key "KeyRight")
      ∷ (ascii "Delete", key "KeyDelete")
      ∷ (ascii "Home", key "KeyHome")
      ∷ (ascii "End", key "KeyEnd")
      ∷ (ascii "PageUp", key "KeyPageup")
      ∷ (ascii "PageDown", key "KeyPagedown")
      ∷ (ascii "Super", key "KeyLeftmeta")
      ∷ []

  unfoldable pub mod_keys : List (Bytes × ℕ)
  mod_keys =
      (ascii "ctrl", key "KeyLeftctrl")
      ∷ (ascii "alt", key "KeyLeftalt")
      ∷ (ascii "super", key "KeyLeftmeta")
      ∷ (ascii "shift", key "KeyLeftshift")
      ∷ []

  unfoldable pub gesture_combos : List (Bytes × (List Bytes × Bytes))
  gesture_combos =
      (ascii "overview", ([], ascii "Super"))
      ∷ (ascii "apps", (ascii "super" ∷ [], ascii "a"))
      ∷ (ascii "ws-left", (ascii "ctrl" ∷ ascii "alt" ∷ [], ascii "ArrowLeft"))
      ∷ (ascii "ws-right", (ascii "ctrl" ∷ ascii "alt" ∷ [], ascii "ArrowRight"))
      ∷ (ascii "zoom-in", (ascii "alt" ∷ ascii "super" ∷ [], ascii "="))
      ∷ (ascii "zoom-out", (ascii "alt" ∷ ascii "super" ∷ [], ascii "-"))
      ∷ []

  pub ascii_no_shift : List (ℕ × ℕ)
  ascii_no_shift =
      (b'a', key "KeyA")
      ∷ (b'b', key "KeyB")
      ∷ (b'c', key "KeyC")
      ∷ (b'd', key "KeyD")
      ∷ (b'e', key "KeyE")
      ∷ (b'f', key "KeyF")
      ∷ (b'g', key "KeyG")
      ∷ (b'h', key "KeyH")
      ∷ (b'i', key "KeyI")
      ∷ (b'j', key "KeyJ")
      ∷ (b'k', key "KeyK")
      ∷ (b'l', key "KeyL")
      ∷ (b'm', key "KeyM")
      ∷ (b'n', key "KeyN")
      ∷ (b'o', key "KeyO")
      ∷ (b'p', key "KeyP")
      ∷ (b'q', key "KeyQ")
      ∷ (b'r', key "KeyR")
      ∷ (b's', key "KeyS")
      ∷ (b't', key "KeyT")
      ∷ (b'u', key "KeyU")
      ∷ (b'v', key "KeyV")
      ∷ (b'w', key "KeyW")
      ∷ (b'x', key "KeyX")
      ∷ (b'y', key "KeyY")
      ∷ (b'z', key "KeyZ")
      ∷ (b'0', key "Key0")
      ∷ (b'1', key "Key1")
      ∷ (b'2', key "Key2")
      ∷ (b'3', key "Key3")
      ∷ (b'4', key "Key4")
      ∷ (b'5', key "Key5")
      ∷ (b'6', key "Key6")
      ∷ (b'7', key "Key7")
      ∷ (b'8', key "Key8")
      ∷ (b'9', key "Key9")
      ∷ (32, key "KeySpace")
      ∷ (10, key "KeyEnter")
      ∷ (9, key "KeyTab")
      ∷ (45, key "KeyMinus")
      ∷ (61, key "KeyEqual")
      ∷ (91, key "KeyLeftbrace")
      ∷ (93, key "KeyRightbrace")
      ∷ (92, key "KeyBackslash")
      ∷ (59, key "KeySemicolon")
      ∷ (39, key "KeyApostrophe")
      ∷ (96, key "KeyGrave")
      ∷ (44, key "KeyComma")
      ∷ (46, key "KeyDot")
      ∷ (47, key "KeySlash")
      ∷ []

  pub ascii_shift : List (ℕ × ℕ)
  ascii_shift =
      (b'A', key "KeyA")
      ∷ (b'B', key "KeyB")
      ∷ (b'C', key "KeyC")
      ∷ (b'D', key "KeyD")
      ∷ (b'E', key "KeyE")
      ∷ (b'F', key "KeyF")
      ∷ (b'G', key "KeyG")
      ∷ (b'H', key "KeyH")
      ∷ (b'I', key "KeyI")
      ∷ (b'J', key "KeyJ")
      ∷ (b'K', key "KeyK")
      ∷ (b'L', key "KeyL")
      ∷ (b'M', key "KeyM")
      ∷ (b'N', key "KeyN")
      ∷ (b'O', key "KeyO")
      ∷ (b'P', key "KeyP")
      ∷ (b'Q', key "KeyQ")
      ∷ (b'R', key "KeyR")
      ∷ (b'S', key "KeyS")
      ∷ (b'T', key "KeyT")
      ∷ (b'U', key "KeyU")
      ∷ (b'V', key "KeyV")
      ∷ (b'W', key "KeyW")
      ∷ (b'X', key "KeyX")
      ∷ (b'Y', key "KeyY")
      ∷ (b'Z', key "KeyZ")
      ∷ (33, key "Key1")
      ∷ (64, key "Key2")
      ∷ (35, key "Key3")
      ∷ (36, key "Key4")
      ∷ (37, key "Key5")
      ∷ (94, key "Key6")
      ∷ (38, key "Key7")
      ∷ (42, key "Key8")
      ∷ (40, key "Key9")
      ∷ (41, key "Key0")
      ∷ (95, key "KeyMinus")
      ∷ (43, key "KeyEqual")
      ∷ (123, key "KeyLeftbrace")
      ∷ (125, key "KeyRightbrace")
      ∷ (124, key "KeyBackslash")
      ∷ (58, key "KeySemicolon")
      ∷ (34, key "KeyApostrophe")
      ∷ (126, key "KeyGrave")
      ∷ (60, key "KeyComma")
      ∷ (62, key "KeyDot")
      ∷ (63, key "KeySlash")
      ∷ []

  -- runeToKey: the code and whether it wants Shift.
  unfoldable pub rune_to_key : ℕ → Option (ℕ × Bool)
  unfolding ascii_no_shift ascii_shift
  rune_to_key r = elim (find_rune r ascii_no_shift) [
    | some code ↦ some (code, false)
    | none ↦ elim (find_rune r ascii_shift) [ some code ↦ some (code, true) | none ↦ none ]
  ]
