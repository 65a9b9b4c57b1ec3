-- ===== src/Keyboard/Released.antt =====
-- A reset lets go of whatever any history of keys and buttons left down.
use phonepad.Base.{
  Bool, Bytes, List, Option, [], ap, arith, false, refl, true, ℕ, ◌∙◌, ◌∷◌, ◌≡◌, ◌≤◌,
}
use phonepad.Keyboard.Device.{
  Device, Btn, VendorAnswer, done, has_code, key_up, left, middle, release_keys, reset, reset_btn,
  right, button,
}
use phonepad.Keyboard.Combo.{combo, gesture, special}
use phonepad.Keyboard.Typing.{KeyChord, plan_text, type_ops}
use phonepad.Keyboard.Tracked.Acts.{
  combo-IsTracked, gesture-IsTracked, special-IsTracked, type_ops-IsTracked,
}
use phonepad.Keyboard.Tracked.Pasting.{clipboard_literal_text-IsTracked}
use phonepad.Keyboard.Paste.{Lease, clipboard_literal_text}
use phonepad.Keyboard.Tracked.{
  IsTracked, button-IsTracked, has_code-without, key_up-IsTracked, reset-IsTracked,
  reset_btn-IsTracked,
}

-- `literals` is a LiteralText that falls back to the clipboard.
pub data Act : Type 0 where
  combos : Bool → List Bytes → Bytes → Act
  specials : Bool → Bytes → Act
  gestures : Bytes → Act
  texts : List ℕ → (ℕ → Lease) → Act
  literals : Lease → Act
  buttons : Option Btn → Bool → Act
  resets : Act

unfoldable pub new_device : Bool → Bool → Device
new_device has_kbd has_mouse = record {
  has_kbd = has_kbd;
  has_mouse = has_mouse;
  held = [];
  btns = λ b. false;
  calls = 0;
  keys_down = λ c. false;
  btns_down = λ b. false;
}

new_device-IsTracked : (has_kbd has_mouse : Bool) → IsTracked (new_device has_kbd has_mouse)
unfolding new_device
new_device-IsTracked has_kbd has_mouse = record {
  keys = λ c h. cc;
  attached = λ c h. cc;
  btns = λ b h. cc;
  clicked = λ b h. cc;
}

no_code : (ks : List ℕ) → ((c : ℕ) → has_code c ks ≡ false) → ks ≡ []
no_code [] h = refl
no_code (k ∷ ks) h = absurd (ground (arith, h k))

not_true : (b : Bool) → ¬ (b ≡ true) → b ≡ false
not_true true n = absurd (n refl)
not_true false n = refl

abbrev pub Healthy : (ℕ → VendorAnswer) → ℕ → Type 0
Healthy vendor n = (k : ℕ) → n ≤ k → vendor k ≡ done

module _ (vendor : ℕ → VendorAnswer) where
  record Releases (cs : List ℕ) (d d' : Device) : Type 0 where
    keys : (k : ℕ) → d'.keys_down k ≡ true → (has_code k cs ≡ false) × (d.keys_down k ≡ true)
    held :
        (k : ℕ) → has_code k d'.held ≡ true → (has_code k cs ≡ false) × (has_code k d.held ≡ true)
    btns : d'.btns_down ≡ d.btns_down
    later : d.calls ≤ d'.calls

  key_up-Releases :
      (d : Device) (c : ℕ)
      → ((k : ℕ) → d.keys_down k ≡ true → d.has_kbd ≡ true)
      → vendor d.calls ≡ done
      → Releases (c ∷ []) d (key_up vendor d c).0
  unfolding key_up
  key_up-Releases d c attached h = record {
    keys = λ k e. (ground (arith, attached k), ground (arith, attached k));
    held = λ k e.
        (ground (arith, has_code-without k c d.held), ground (arith, has_code-without k c d.held));
    btns = ground arith;
    later = ground arith;
  }

  Releases-more :
      (c : ℕ) (cs : List ℕ) (d d' d'' : Device)
      → Releases (c ∷ []) d d'
      → Releases cs d' d''
      → Releases (c ∷ cs) d d''
  Releases-more c cs d d' d'' r t = record {
    keys =
        λ k e. (ground (arith, t.keys k e, r.keys k (t.keys k e).1), (r.keys k (t.keys k e).1).1);
    held =
        λ k e. (ground (arith, t.held k e, r.held k (t.held k e).1), (r.held k (t.held k e).1).1);
    btns = t.btns ∙ r.btns;
    later = omega (arith, r.later, t.later);
  }

  release_keys-Releases :
      (cs : List ℕ) (d : Device)
      → IsTracked d
      → Healthy vendor d.calls
      → Releases cs d (release_keys vendor d cs)
  unfolding release_keys
  release_keys-Releases [] d v h = record {
    keys = λ k e. (refl, e);
    held = λ k e. (refl, e);
    btns = refl;
    later = omega arith;
  }
  release_keys-Releases (c ∷ cs) d v h =
      let d' = (key_up vendor d c).0 in
      let r = key_up-Releases d c v.attached (h d.calls (omega arith)) in
      Releases-more c cs d d' (release_keys vendor d' cs) r (
        release_keys-Releases cs d' (key_up-IsTracked vendor d c v)
          (λ k l. h k (omega (arith, r.later))))

  record Lets (b : Btn) (d d' : Device) : Type 0 where
    up : d'.btns_down b ≡ false
    others : (c : Btn) → d.btns_down c ≡ false → d'.btns_down c ≡ false
    later : d.calls ≤ d'.calls

  reset_btn-Lets :
      (d : Device) (b : Btn) → IsTracked d → vendor d.calls ≡ done → Lets b d (reset_btn vendor d b)
  unfolding reset_btn
  reset_btn-Lets d b v h = record {
    up = reset_up b;
    others = λ c e. ground arith;
    later = ground arith;
  }
    where
      reset_up : (b : Btn) → (reset_btn vendor d b).btns_down b ≡ false
      reset_up left = ground (arith, v.btns left, v.clicked left)
      reset_up right = ground (arith, v.btns right, v.clicked right)
      reset_up middle = ground (arith, v.btns middle, v.clicked middle)

  all_up :
      (d l r m : Device)
      → Lets left d l
      → Lets right l r
      → Lets middle r m
      → (b : Btn) → m.btns_down b ≡ false
  all_up d l r m el er em left = em.others left (er.others left el.up)
  all_up d l r m el er em right = em.others right er.up
  all_up d l r m el er em middle = em.up

  reset_up :
      (d : Device)
      → IsTracked d
      → Healthy vendor d.calls
      → ((c : ℕ) → (reset vendor d).keys_down c ≡ false)
        × ((b : Btn) → (reset vendor d).btns_down b ≡ false)
        × ((reset vendor d).held ≡ [])
  unfolding reset
  reset_up d v h =
      let l = reset_btn vendor d left in
      let r = reset_btn vendor l right in
      let m = reset_btn vendor r middle in
      let vl = reset_btn-IsTracked vendor d left v in
      let vr = reset_btn-IsTracked vendor l right vl in
      let vm = reset_btn-IsTracked vendor r middle vr in
      let el = reset_btn-Lets d left v (h d.calls (omega arith)) in
      let er = reset_btn-Lets l right vl (h l.calls (omega (arith, el.later))) in
      let em = reset_btn-Lets r middle vr (h r.calls (omega (arith, el.later, er.later))) in
      let a =
        release_keys-Releases m.held m vm
          (λ k p. h k (omega (arith, el.later, er.later, em.later))) in
      let unlit : (b : Btn) → m.btns_down b ≡ false = all_up d l r m el er em in
      (
        λ c. not_true _ (λ e. ground (arith, a.keys c e, vm.keys c (a.keys c e).1)),
        λ b. ap (λ f. f b) a.btns ∙ unlit b,
        no_code _ (λ c. not_true _ (λ e. ground (arith, a.held c e))),
      )

  module _ (keys : ℕ → Option KeyChord) (uinput : Bytes → ℕ) (runes : Bytes → List ℕ)
      (to_lower : ℕ → ℕ) where
    unfoldable pub act : Device → Act → Device
    act d (combos stop mods key) = (combo vendor uinput runes to_lower d stop mods key).0
    act d (specials stop key) = (special vendor uinput runes to_lower d stop key).0
    act d (gestures name) = gesture vendor uinput runes to_lower d name
    act d (texts s leases) = type_ops vendor uinput leases d (plan_text keys s)
    act d (literals lease) = (clipboard_literal_text vendor uinput d lease).0
    act d (buttons b down) = button vendor d b down
    act d resets = reset vendor d

    unfoldable pub act_all : Device → List Act → Device
    act_all d [] = d
    act_all d (a ∷ acts) = act_all (act d a) acts

    act-IsTracked : (d : Device) (a : Act) → IsTracked d → IsTracked (act d a)
    unfolding act
    act-IsTracked d (combos stop mods key) v =
        combo-IsTracked vendor uinput runes to_lower d stop mods key v
    act-IsTracked d (specials stop key) v =
        special-IsTracked vendor uinput runes to_lower d stop key v
    act-IsTracked d (gestures name) v = gesture-IsTracked vendor uinput runes to_lower d name v
    act-IsTracked d (texts s leases) v =
        type_ops-IsTracked vendor uinput runes to_lower (plan_text keys s) leases d v
    act-IsTracked d (literals lease) v = clipboard_literal_text-IsTracked vendor uinput d lease v
    act-IsTracked d (buttons b down) v = button-IsTracked vendor d b down v
    act-IsTracked d resets v = reset-IsTracked vendor d v

    act_all-IsTracked : (acts : List Act) (d : Device) → IsTracked d → IsTracked (act_all d acts)
    unfolding act_all
    act_all-IsTracked [] d v = v
    act_all-IsTracked (a ∷ acts) d v = act_all-IsTracked acts (act d a) (act-IsTracked d a v)

    -- After any history of texts, pastes, keys, combos, gestures, buttons and resets on a new device,
    -- whatever calls of the library failed in it and after however many of their records, and however
    -- the clipboard answered, a reset whose calls succeed leaves no key and no button down in the
    -- kernel, and no key in the inventory.
    pub reset_releases :
        (has_kbd has_mouse : Bool) (acts : List Act)
        → Healthy vendor (act_all (new_device has_kbd has_mouse) acts).calls
        → let d = reset vendor (act_all (new_device has_kbd has_mouse) acts) in
          ((c : ℕ) → d.keys_down c ≡ false) × ((b : Btn) → d.btns_down b ≡ false) × (d.held ≡ [])
    reset_releases has_kbd has_mouse acts h =
        reset_up (act_all (new_device has_kbd has_mouse) acts)
          (act_all-IsTracked acts (new_device has_kbd has_mouse)
            (new_device-IsTracked has_kbd has_mouse))
          h
