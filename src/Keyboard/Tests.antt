-- ===== src/Keyboard/Tests.antt =====
-- The theorems on keys at concrete inputs: a library whose third call fails after its first record.
use phonepad.Base.{
  Bytes, List, Option, [], arith, ascii, bytes_eq, false, get, if◌then◌else◌, leb, length, none,
  refl, some, true, ℕ, ◌&&◌, ◌==◌, ◌∷◌, ◌≡◌,
}
use phonepad.Keyboard.Device.{
  Device, Btn, VendorAnswer, broken, button, done, key_down, key_press, key_up, left, reset,
  ActionResult, release_keys,
}
use phonepad.TextUpload.World.{LiteralResult}
use phonepad.Keyboard.Paste.{
  Lease, clipboard_literal_text, dispatch_paste, press_modifiers, release_modifiers,
}
use phonepad.Keyboard.Combo.{combo, combo_code, combo_from, press_combo, release_mods, is_executed}
use phonepad.Keyboard.Typing.{KeyChord, plan_from, plan_text, type_op, type_ops}
use phonepad.Keyboard.Released.{
  reset_releases, Act, act, act_all, buttons, combos, new_device, texts, literals,
}
use phonepad.Keyboard.Executed.{combo-executed}
use phonepad.Keyboard.Plan.{plan_text-entered, IsSparse, PastesUntyped, entered}
use phonepad.Keyboard.Keymap.{mod_keys, special_keys}

abbrev flaky : ℕ → VendorAnswer
flaky n = if n == 2 then broken 1 else done

-- A stand-in for the constants: the last byte of a name.
abbrev numbered : Bytes → ℕ
numbered [] = 0
numbered (c ∷ s) = if length s == 0 then c else numbered s

abbrev bytes_of : Bytes → List ℕ
bytes_of s = s

abbrev same_rune : ℕ → ℕ
same_rune r = r

abbrev lower_case : ℕ → Option KeyChord
lower_case r =
    if leb b'a' r && leb r b'z'
    then some (record { code = r; shift = false; altgr = false })
    else none

abbrev answer : Bytes → LiteralResult
answer s = record { state = s; detail = []; target = [] }

-- A clipboard that answers as it should, with the shortcut of a terminal.
abbrev terminal : Lease
terminal = record {
  expired_first = false;
  starts = true;
  ready = answer (ascii "ready");
  expired_ready = false;
  arms = true;
  armed = answer (ascii "armed");
  expired_armed = false;
  ctrl_shift_v = true;
  sends = true;
  receipt = answer (ascii "dispatched");
}

abbrev acts : List Act
acts =
    texts (b'h' ∷ 233 ∷ b'i' ∷ []) (λ n. terminal)
    ∷ literals terminal
    ∷ combos false (ascii "ctrl" ∷ []) (ascii "Tab")
    ∷ buttons (some left) true
    ∷ []

abbrev used : Device
used = act_all flaky lower_case numbered bytes_of same_rune (new_device true true) acts

used_calls : used.calls ≡ 15
unfolding act_all act new_device plan_text plan_from type_ops type_op clipboard_literal_text
    dispatch_paste press_modifiers release_modifiers release_keys key_press combo combo_from
    combo_code special_keys mod_keys get bytes_eq key_down press_combo release_mods key_up button
used_calls = refl

reset_releases_example :
    let d = reset flaky used in
    ((c : ℕ) → d.keys_down c ≡ false) × ((b : Btn) → d.btns_down b ≡ false) × (d.held ≡ [])
reset_releases_example =
    reset_releases flaky lower_case numbered bytes_of same_rune true true acts
      (λ k h. ground (arith, used_calls))

-- A device with the key 50 down.
abbrev busy : Device
busy = record (new_device true true) { held = 50 ∷ []; keys_down = λ c. c == 50 }

abbrev healthy : ℕ → VendorAnswer
healthy n = done

abbrev switched : Device × ActionResult
switched = combo healthy numbered bytes_of same_rune busy false (ascii "ctrl" ∷ []) (ascii "Tab")

switched_executed : is_executed switched.1.state ≡ true
unfolding combo combo_from combo_code special_keys mod_keys get bytes_eq key_down key_press
    press_combo release_mods key_up new_device
switched_executed = refl

switched_holds : switched.0.keys_down 50 ≡ true
unfolding combo combo_from combo_code special_keys mod_keys get bytes_eq key_down key_press
    press_combo release_mods key_up new_device
switched_holds = refl

combo-executed_example : busy.keys_down 50 ≡ true
combo-executed_example =
    combo-executed healthy numbered bytes_of same_rune busy false (ascii "ctrl" ∷ []) (ascii "Tab")
      50 switched_executed switched_holds

plan_text-entered_example :
    (entered (λ k. k.code) (plan_text lower_case (b'h' ∷ 233 ∷ b'i' ∷ [])) ≡ b'h' ∷ 233 ∷ b'i' ∷ [])
    × IsSparse (plan_text lower_case (b'h' ∷ 233 ∷ b'i' ∷ []))
    × PastesUntyped lower_case (plan_text lower_case (b'h' ∷ 233 ∷ b'i' ∷ []))
plan_text-entered_example =
    plan_text-entered lower_case (λ k. k.code) (λ r k h. ground arith) (b'h' ∷ 233 ∷ b'i' ∷ [])
