-- ===== src/Keyboard/Tracked/Acts.antt =====
-- What the kernel may have down stays in the inventory over texts, combos and gestures.
use phonepad.Base.{
  Bool, Bool-cases, Bytes, List, Option, Option-cases, [], false, get, inl, inr, none, some, suc,
  true, ℕ, ◌∷◌,
}
use phonepad.Keyboard.Device.{Device, ActionResult, VendorAnswer, key_down, key_up}
use phonepad.Keyboard.Combo.{
  unwind, combo, combo_code, combo_from, gesture, is_executed, press_combo, release_mods, special,
}
use phonepad.Keyboard.Paste.{Lease}
use phonepad.Keyboard.Typing.{type_op, TextOp, chords, pastes, type_ops, when}
use phonepad.Keyboard.Keymap.{mod_keys, gesture_combos, special_keys}
use phonepad.Keyboard.Tracked.{IsTracked, key_down-IsTracked, key_press-IsTracked, key_up-IsTracked}
use phonepad.Keyboard.Tracked.Pasting.{clipboard_literal_text-IsTracked}

module _ (vendor : ℕ → VendorAnswer) where
  unwind-IsTracked : (cs : List ℕ) (d : Device) → IsTracked d → IsTracked (unwind vendor d cs)
  unfolding unwind
  unwind-IsTracked [] d v = v
  unwind-IsTracked (c ∷ cs) d v =
      unwind-IsTracked cs (key_up vendor d c).0 (key_up-IsTracked vendor d c v)

  release_mods-IsTracked :
      (cs : List ℕ) (d : Device) (r : ActionResult)
      → IsTracked d
      → IsTracked (release_mods vendor d cs r).0
  unfolding release_mods
  release_mods-IsTracked [] d r v = v
  release_mods-IsTracked (c ∷ cs) d r v =
      release_mods-IsTracked cs (key_up vendor d c).0 _ (key_up-IsTracked vendor d c v)

  module _ (uinput : Bytes → ℕ) (runes : Bytes → List ℕ) (to_lower : ℕ → ℕ) where
    press_combo-IsTracked :
        (d : Device) (code : Option ℕ)
        → IsTracked d
        → IsTracked (press_combo vendor uinput runes to_lower d code).0
    unfolding press_combo
    press_combo-IsTracked d none v = v
    press_combo-IsTracked d (some code) v = key_press-IsTracked vendor d code v

    combo_from-IsTracked :
        (ms : List Bytes) (d : Device) (held : List ℕ) (key : Bytes)
        → IsTracked d
        → IsTracked (combo_from vendor uinput runes to_lower d held ms key).0
    unfolding combo_from
    combo_from-IsTracked [] d held key v =
        release_mods-IsTracked held _ _
          (press_combo-IsTracked d (combo_code vendor uinput runes to_lower key) v)
    combo_from-IsTracked (m ∷ ms) d held key v = elim (Option-cases (get m (mod_keys uinput))) [
      | inl e ↦ rw (e, combo_from) (unwind-IsTracked held d v)
      | inr (code, e) ↦
          let d' = (key_down vendor d code).0 in
          let v' = key_down-IsTracked vendor d code v in
          rw (e, combo_from)
            (elim (Bool-cases (is_executed (key_down vendor d code).1.state)) [
              | inl yes' ↦ rw yes' (combo_from-IsTracked ms d' (code ∷ held) key v')
              | inr no' ↦ rw no' (unwind-IsTracked (code ∷ held) d' v')
            ])
    ]

    pub combo-IsTracked :
        (d : Device) (stop : Bool) (ms : List Bytes) (key : Bytes)
        → IsTracked d
        → IsTracked (combo vendor uinput runes to_lower d stop ms key).0
    unfolding combo
    combo-IsTracked d true ms key v = v
    combo-IsTracked d false ms key v = combo_from-IsTracked ms d [] key v

    pub special-IsTracked :
        (d : Device) (stop : Bool) (key : Bytes)
        → IsTracked d
        → IsTracked (special vendor uinput runes to_lower d stop key).0
    unfolding special
    special-IsTracked d true key v = v
    special-IsTracked d false key v = elim (Option-cases (get key (special_keys uinput))) [
      | inl e ↦ rw (e, special) v
      | inr (code, e) ↦ rw (e, special) (key_press-IsTracked vendor d code v)
    ]

    pub gesture-IsTracked :
        (d : Device) (name : Bytes)
        → IsTracked d
        → IsTracked (gesture vendor uinput runes to_lower d name)
    unfolding gesture
    gesture-IsTracked d name v = elim (Option-cases (get name (gesture_combos uinput))) [
      | inl e ↦ rw (e, gesture) v
      | inr ((ms, key), e) ↦ rw (e, gesture) (combo-IsTracked d false ms key v)
    ]

    when-IsTracked :
        (b : Bool) (f : Device → Device) (d : Device)
        → ((x : Device) → IsTracked x → IsTracked (f x))
        → IsTracked d
        → IsTracked (when vendor uinput b f d)
    when-IsTracked true f d k v = k d v
    when-IsTracked false f d k v = v

    type_op-IsTracked :
        (lease : Lease) (d : Device) (op : TextOp)
        → IsTracked d
        → IsTracked (type_op vendor uinput lease d op)
    unfolding type_op
    type_op-IsTracked lease d (pastes s) v =
        clipboard_literal_text-IsTracked vendor uinput d lease v
    type_op-IsTracked lease d (chords k) v =
        when-IsTracked k.shift _ _ (λ x. key_up-IsTracked vendor x _)
          (when-IsTracked k.altgr _ _ (λ x. key_up-IsTracked vendor x _)
            (key_press-IsTracked vendor _ k.code (
              when-IsTracked k.altgr _ _ (λ x. key_down-IsTracked vendor x _)
                (when-IsTracked k.shift _ _ (λ x. key_down-IsTracked vendor x _) v))))

    pub type_ops-IsTracked :
        (ops : List TextOp) (leases : ℕ → Lease) (d : Device)
        → IsTracked d
        → IsTracked (type_ops vendor uinput leases d ops)
    unfolding type_ops
    type_ops-IsTracked [] leases d v = v
    type_ops-IsTracked (op ∷ ops) leases d v =
        type_ops-IsTracked ops (λ n. leases (suc n)) (type_op vendor uinput (leases 0) d op)
          (type_op-IsTracked (leases 0) d op v)
