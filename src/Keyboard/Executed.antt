-- ===== src/Keyboard/Executed.antt =====
-- A combo that is reported as executed leaves no key behind.
use phonepad.Base.{
  Bool, Bool-cases, Bytes, List, Option, Option-cases, [], arith, false, get, inl, inr, none, refl,
  some, true, ℕ, ◌∙◌, ◌∷◌, ◌≡◌, ◌⊎◌,
}
use phonepad.Keyboard.Device.{
  Device, ActionResult, VendorAnswer, has_code, key_press, key_up, key_down, remember_key,
}
use phonepad.Keyboard.Combo.{
  combo, is_executed, release_mods, combo_from, downgraded, press_combo, combo_code,
}
use phonepad.Keyboard.Keymap.{mod_keys}

module _ (vendor : ℕ → VendorAnswer) where
  -- Every key that is down afterwards was down before, and is none of `cs`.
  record Clears (cs : List ℕ) (d d' : Device) : Type 0 where
    kbd : d'.has_kbd ≡ d.has_kbd
    keys : (k : ℕ) → d'.keys_down k ≡ true → (has_code k cs ≡ false) × (d.keys_down k ≡ true)

  key_up-Clears :
      (d : Device) (c : ℕ)
      → d.has_kbd ≡ true
      → is_executed (key_up vendor d c).1.state ≡ true
      → Clears (c ∷ []) d (key_up vendor d c).0
  unfolding key_up
  key_up-Clears d c b h = record { kbd = ground arith; keys = λ k e. (ground arith, ground arith) }

  key_press-Clears :
      (d : Device) (c : ℕ)
      → is_executed (key_press vendor d c).1.state ≡ true
      → (d.has_kbd ≡ true) × Clears [] d (key_press vendor d c).0
  unfolding key_press
  key_press-Clears d c h =
      (ground arith, record { kbd = ground arith; keys = λ k e. (refl, ground arith) })

  key_up-kbd : (d : Device) (c : ℕ) → (key_up vendor d c).0.has_kbd ≡ d.has_kbd
  unfolding key_up remember_key
  key_up-kbd d c = ground arith

  key_down-Adds :
      (d : Device) (c k : ℕ)
      → (key_down vendor d c).0.keys_down k ≡ true
      → (c ≡ k) ⊎ (d.keys_down k ≡ true)
  unfolding key_down remember_key
  key_down-Adds d c k h = ground arith

  downgraded_good :
      (r up : ActionResult)
      → is_executed (downgraded vendor r up).state ≡ true
      → (is_executed r.state ≡ true) × (is_executed up.state ≡ true)
  downgraded_good r up h = (ground arith, ground arith)

  release_mods-Clears :
      (cs : List ℕ) (d : Device) (r : ActionResult)
      → d.has_kbd ≡ true
      → is_executed (release_mods vendor d cs r).1.state ≡ true
      → (is_executed r.state ≡ true) × Clears cs d (release_mods vendor d cs r).0
  unfolding release_mods
  release_mods-Clears [] d r b h = (h, record { kbd = refl; keys = λ k e. (refl, e) })
  release_mods-Clears (c ∷ cs) d r b h =
      let d' = (key_up vendor d c).0 in
      let up = (key_up vendor d c).1 in
      let (good, rest) =
        release_mods-Clears cs d' (downgraded vendor r up) (key_up-kbd d c ∙ b) h in
      let (fine, released) = downgraded_good r up good in
      let one = key_up-Clears d c b released in
      (
        fine,
        record {
          kbd = rest.kbd ∙ one.kbd;
          keys = λ k e. (
            ground (arith, rest.keys k e, one.keys k (rest.keys k e).1),
            (one.keys k (rest.keys k e).1).1,
          );
        },
      )

  release_mods-executed :
      (cs : List ℕ) (d : Device) (r : ActionResult)
      → is_executed (release_mods vendor d cs r).1.state ≡ true
      → is_executed r.state ≡ true
  unfolding release_mods
  release_mods-executed [] d r h = h
  release_mods-executed (c ∷ cs) d r h =
      let up = (key_up vendor d c).1 in
      (downgraded_good r up
        (release_mods-executed cs (key_up vendor d c).0 (downgraded vendor r up) h)).0

  module _ (uinput : Bytes → ℕ) (runes : Bytes → List ℕ) (to_lower : ℕ → ℕ) where
    press_combo-Clears :
        (d : Device) (code : Option ℕ)
        → is_executed (press_combo vendor uinput runes to_lower d code).1.state ≡ true
        → (d.has_kbd ≡ true) × Clears [] d (press_combo vendor uinput runes to_lower d code).0
    unfolding press_combo
    press_combo-Clears d none h = absurd (ground arith)
    press_combo-Clears d (some code) h = key_press-Clears d code h

    -- `start` is the device before the first modifier.
    combo_from-Clears :
        (start : Device) (ms : List Bytes) (d : Device) (held : List ℕ) (key : Bytes)
        → ((k : ℕ) → d.keys_down k ≡ true → (has_code k held ≡ true) ⊎ (start.keys_down k ≡ true))
        → is_executed (combo_from vendor uinput runes to_lower d held ms key).1.state ≡ true
        → (k : ℕ) → (combo_from vendor uinput runes to_lower d held ms key).0.keys_down k ≡ true
        → start.keys_down k ≡ true
    unfolding combo_from
    combo_from-Clears start [] d held key v h k e =
        let pressed =
          press_combo vendor uinput runes to_lower d
            (combo_code vendor uinput runes to_lower key) in
        let (kbd, one) =
          press_combo-Clears d (combo_code vendor uinput runes to_lower key)
            (release_mods-executed held pressed.0 pressed.1 h) in
        let all = (release_mods-Clears held pressed.0 pressed.1 (one.kbd ∙ kbd) h).1 in
        let (freed, kept) = all.keys k e in ground (arith, v k (one.keys k kept).1)
    combo_from-Clears start (m ∷ ms) d held key v h k e =
        elim (Option-cases (get m (mod_keys uinput))) [
          | inl q ↦ absurd (ground arith)
          | inr (code, q) ↦
              let d' = (key_down vendor d code).0 in
              elim (Bool-cases (is_executed (key_down vendor d code).1.state)) [
                | inr failed ↦ absurd (ground arith)
                | inl good ↦
                    combo_from-Clears start ms d' (code ∷ held) key
                      (λ j f. ground (arith, key_down-Adds d code j f, v j)) (ground arith) k
                      (ground arith)
              ]
        ]

    -- A combo that is reported as executed leaves no key down that was not down before it, whatever
    -- calls of the library fail: its modifiers are up again, and so is its key.
    pub combo-executed :
        (d : Device) (stop : Bool) (mods : List Bytes) (key : Bytes) (k : ℕ)
        → is_executed (combo vendor uinput runes to_lower d stop mods key).1.state ≡ true
        → (combo vendor uinput runes to_lower d stop mods key).0.keys_down k ≡ true
        → d.keys_down k ≡ true
    unfolding combo
    combo-executed d true mods key k h e = e
    combo-executed d false mods key k h e = combo_from-Clears d mods d [] key (λ j f. inr f) h k e
