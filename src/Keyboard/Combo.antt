-- ===== src/Keyboard/Combo.antt =====
-- SpecialAction, ComboAction and Gesture of daemon/internal/input/input.go. `runes` is Go's conversion
-- of a string to runes and `to_lower` is unicode.ToLower; `cancelled` says that the context has ended.
use phonepad.Base.{
  Bool, Bytes, List, Option, [], false, get, if◌then◌else◌, none, not, some, true, ℕ, ◌&&◌, ◌∷◌,
}
use phonepad.Keyboard.Keymap.{special_keys, mod_keys, gesture_combos, rune_to_key}
use phonepad.Keyboard.Device.{
  Device, ActionResult, ActionState, VendorAnswer, executed, key_down, key_press, key_up, rejected,
  result, uncertain,
}

abbrev pub is_executed : ActionState → Bool
is_executed executed = true
is_executed _ = false

module _ (vendor : ℕ → VendorAnswer) where
  -- The loops that release held modifiers: they run backwards over the list, so the codes are listed
  -- with the last one first.
  unfoldable pub unwind : Device → List ℕ → Device
  unwind d [] = d
  unwind d (c ∷ cs) = unwind (key_up vendor d c).0 cs

  abbrev pub downgraded : ActionResult → ActionResult → ActionResult
  downgraded r up =
      if not (is_executed up.state) && is_executed r.state
      then result uncertain "uinput_modifier_release_interrupted"
      else r

  unfoldable pub release_mods : Device → List ℕ → ActionResult → Device × ActionResult
  release_mods d [] r = (d, r)
  release_mods d (c ∷ cs) r =
      let (d', up) = key_up vendor d c in release_mods d' cs (downgraded r up)

  module _ (uinput : Bytes → ℕ) (runes : Bytes → List ℕ) (to_lower : ℕ → ℕ) where
    -- The code that a combo's key is pressed by.
    single_rune : List ℕ → Option ℕ
    single_rune [] = none
    single_rune (r ∷ []) = elim (rune_to_key uinput (to_lower r)) [
      | none ↦ none
      | some (code, shift) ↦ some code
    ]
    single_rune (r ∷ s ∷ rs) = none

    unfoldable pub combo_code : Bytes → Option ℕ
    unfolding single_rune
    combo_code key = elim (get key (special_keys uinput)) [
      | some code ↦ some code
      | none ↦ single_rune (runes key)
    ]

    unfoldable pub press_combo : Device → Option ℕ → Device × ActionResult
    press_combo d none = (d, result rejected "unknown_combo_key")
    press_combo d (some code) = key_press vendor d code

    -- The loop over the modifiers, and what follows it.
    unfoldable pub combo_from : Device → List ℕ → List Bytes → Bytes → Device × ActionResult
    combo_from d held [] key =
        let (d', r) = press_combo d (combo_code key) in release_mods d' held r
    combo_from d held (m ∷ ms) key = elim (get m (mod_keys uinput)) [
      | none ↦ (unwind d held, result rejected "unknown_modifier")
      | some code ↦
          let (d', down) = key_down vendor d code in
          let rest = combo_from d' (code ∷ held) ms key in
          if not (is_executed down.state) then (unwind d' (code ∷ held), down) else rest
    ]

    unfoldable pub combo : Device → Bool → List Bytes → Bytes → Device × ActionResult
    combo d cancelled mods key =
        if cancelled
        then (d, result rejected "cancelled_before_dispatch")
        else combo_from d [] mods key

    unfoldable pub special : Device → Bool → Bytes → Device × ActionResult
    special d cancelled key =
        if cancelled
        then (d, result rejected "cancelled_before_dispatch")
        else elim (get key (special_keys uinput)) [
          | none ↦ (d, result rejected "unknown_special")
          | some code ↦ key_press vendor d code
        ]

    unfoldable pub gesture : Device → Bytes → Device
    gesture d name = elim (get name (gesture_combos uinput)) [
      | none ↦ d
      | some (mods, key) ↦ (combo d false mods key).0
    ]
