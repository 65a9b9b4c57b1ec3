-- ===== src/Keyboard/Tracked.antt =====
-- What the kernel may have down is in the program's inventory.
pub mod Pasting
pub mod Acts
use phonepad.Base.{Bool, List, Option, [], arith, none, not, some, true, ℕ, ◌&&◌, ◌==◌, ◌∷◌, ◌≡◌}
use phonepad.Keyboard.Device.{
  Device, Btn, VendorAnswer, has_code, key_down, remember_key, without, ActionResult, button,
  key_press, key_up, left, middle, release_keys, reset, reset_btn, right,
}
use phonepad.Keyboard.Combo.{
  combo_code, combo_from, is_executed, press_combo, release_mods, unwind, combo, gesture, special,
}
use phonepad.Keyboard.Keymap.{mod_keys, gesture_combos, special_keys}
use phonepad.Keyboard.Typing.{TextOp, chords, pastes, type_op, type_ops, when}

pub record IsTracked (d : Device) : Type 0 where
  pub keys : (c : ℕ) → d.keys_down c ≡ true → has_code c d.held ≡ true
  pub attached : (c : ℕ) → d.keys_down c ≡ true → d.has_kbd ≡ true
  pub btns : (b : Btn) → d.btns_down b ≡ true → d.btns b ≡ true
  pub clicked : (b : Btn) → d.btns_down b ≡ true → d.has_mouse ≡ true

pub has_code-without :
    (c k : ℕ) (ks : List ℕ) → has_code c (without k ks) ≡ (not (k == c) && has_code c ks)
unfolding without
has_code-without c k [] = ground arith
has_code-without c k (x ∷ ks) = ground (arith, has_code-without c k ks)

module _ (vendor : ℕ → VendorAnswer) where
  pub key_down-IsTracked : (d : Device) (c : ℕ) → IsTracked d → IsTracked (key_down vendor d c).0
  unfolding key_down remember_key
  key_down-IsTracked d c v = record {
    keys = λ k h. ground (arith, v.keys k);
    attached = λ k h. ground (arith, v.attached k);
    btns = λ b h. ground (arith, v.btns b);
    clicked = λ b h. ground (arith, v.clicked b);
  }

  pub key_up-IsTracked : (d : Device) (c : ℕ) → IsTracked d → IsTracked (key_up vendor d c).0
  unfolding key_up remember_key
  key_up-IsTracked d c v = record {
    keys = λ k h. ground (arith, v.keys k, v.attached k, has_code-without k c d.held);
    attached = λ k h. ground (arith, v.attached k);
    btns = λ b h. ground (arith, v.btns b);
    clicked = λ b h. ground (arith, v.clicked b);
  }

  pub key_press-IsTracked : (d : Device) (c : ℕ) → IsTracked d → IsTracked (key_press vendor d c).0
  unfolding key_press remember_key
  key_press-IsTracked d c v = record {
    keys = λ k h. ground (arith, v.keys k);
    attached = λ k h. ground (arith, v.attached k);
    btns = λ b h. ground (arith, v.btns b);
    clicked = λ b h. ground (arith, v.clicked b);
  }

  pub button-IsTracked :
      (d : Device) (b : Option Btn) (down : Bool) → IsTracked d → IsTracked (button vendor d b down)
  unfolding button
  button-IsTracked d none down v = v
  button-IsTracked d (some b) down v = record {
    keys = λ k h. ground (arith, v.keys k);
    attached = λ k h. ground (arith, v.attached k);
    btns = λ c h. ground (arith, v.btns c);
    clicked = λ c h. ground (arith, v.clicked c);
  }

  pub reset_btn-IsTracked : (d : Device) (b : Btn) → IsTracked d → IsTracked (reset_btn vendor d b)
  unfolding reset_btn
  reset_btn-IsTracked d b v = record {
    keys = λ k h. ground (arith, v.keys k);
    attached = λ k h. ground (arith, v.attached k);
    btns = λ c h. ground (arith, v.btns c, v.btns b);
    clicked = λ c h. ground (arith, v.clicked c);
  }

  pub release_keys-IsTracked :
      (cs : List ℕ) (d : Device) → IsTracked d → IsTracked (release_keys vendor d cs)
  unfolding release_keys
  release_keys-IsTracked [] d v = v
  release_keys-IsTracked (c ∷ cs) d v =
      release_keys-IsTracked cs (key_up vendor d c).0 (key_up-IsTracked d c v)

  pub reset-IsTracked : (d : Device) → IsTracked d → IsTracked (reset vendor d)
  unfolding reset
  reset-IsTracked d v =
      let l = reset_btn vendor d left in
      let r = reset_btn vendor l right in
      let m = reset_btn vendor r middle in
      release_keys-IsTracked m.held m
        (reset_btn-IsTracked r middle (reset_btn-IsTracked l right (reset_btn-IsTracked d left v)))
