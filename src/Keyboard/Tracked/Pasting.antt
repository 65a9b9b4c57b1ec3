-- ===== src/Keyboard/Tracked/Pasting.antt =====
-- What the kernel may have down stays in the inventory over a paste.
use phonepad.Base.{
  Bool, Bool-cases, Bytes, List, [], ascii, bytes_eq, false, if◌then◌else◌, inl, inr, not, true, ℕ,
  ◌++◌, ◌||◌, ◌∷◌,
}
use phonepad.TextUpload.World.{LiteralResult}
use phonepad.Keyboard.Device.{Device, VendorAnswer, key_down, key_up}
use phonepad.Keyboard.Combo.{is_executed}
use phonepad.Keyboard.Paste.{
  Lease, press_modifiers, release_modifiers, dispatch_paste, clipboard_literal_text, cancelled,
  unavailable,
}
use phonepad.Keyboard.Tracked.{
  IsTracked, key_down-IsTracked, key_press-IsTracked, key_up-IsTracked, release_keys-IsTracked,
}

module _ (vendor : ℕ → VendorAnswer) where
  press_modifiers-IsTracked :
      (cs before : List ℕ) (d : Device)
      → IsTracked d
      → IsTracked (press_modifiers vendor d before cs).0
  unfolding press_modifiers
  press_modifiers-IsTracked [] before d v = v
  press_modifiers-IsTracked (c ∷ cs) before d v =
      let d' = (key_down vendor d c).0 in
      let v' = key_down-IsTracked vendor d c v in
      let so_far = before ++ c ∷ [] in
      elim (Bool-cases (is_executed (key_down vendor d c).1.state)) [
        | inl done' ↦ rw done' (press_modifiers-IsTracked cs so_far d' v')
        | inr failed ↦ rw failed (release_keys-IsTracked vendor so_far d' v')
      ]

  release_modifiers-IsTracked :
      (cs : List ℕ) (d : Device) → IsTracked d → IsTracked (release_modifiers vendor d cs).0
  unfolding release_modifiers
  release_modifiers-IsTracked [] d v = v
  release_modifiers-IsTracked (c ∷ cs) d v =
      release_modifiers-IsTracked cs (key_up vendor d c).0 (key_up-IsTracked vendor d c v)

  if-IsTracked :
      (b : Bool) (x y : Device × LiteralResult)
      → IsTracked x.0
      → IsTracked y.0
      → IsTracked (if b then x else y).0
  if-IsTracked true x y v w = v
  if-IsTracked false x y v w = w

  dispatch_paste-IsTracked :
      (uinput : Bytes → ℕ) (d : Device) (l : Lease)
      → IsTracked d
      → IsTracked (dispatch_paste vendor uinput d l).0
  unfolding dispatch_paste
  dispatch_paste-IsTracked uinput d l v =
      let v1 = press_modifiers-IsTracked _ [] d v in
      let v3 = release_modifiers-IsTracked _ _ (key_press-IsTracked vendor _ _ v1) in
      if-IsTracked _ _ _ v1 (if-IsTracked _ _ _ v3 v3)

  pub clipboard_literal_text-IsTracked :
      (uinput : Bytes → ℕ) (d : Device) (l : Lease)
      → IsTracked d
      → IsTracked (clipboard_literal_text vendor uinput d l).0
  unfolding clipboard_literal_text
  clipboard_literal_text-IsTracked uinput d l v =
      let a = dispatch_paste vendor uinput d l in
      let b = if l.expired_armed then (d, cancelled) else a in
      let c = if not (bytes_eq l.armed.state (ascii "armed")) then (d, l.armed) else b in
      let e = if l.expired_ready || not l.arms then (d, cancelled) else c in
      let f = if not (bytes_eq l.ready.state (ascii "ready")) then (d, l.ready) else e in
      let g = if not l.starts then (d, unavailable) else f in
      let va : IsTracked a.0 = dispatch_paste-IsTracked uinput d l v in
      let vb : IsTracked b.0 = if-IsTracked l.expired_armed (d, cancelled) a v va in
      let vc : IsTracked c.0 =
        if-IsTracked (not (bytes_eq l.armed.state (ascii "armed"))) (d, l.armed) b v vb in
      let ve : IsTracked e.0 = if-IsTracked (l.expired_ready || not l.arms) (d, cancelled) c v vc in
      let vf : IsTracked f.0 =
        if-IsTracked (not (bytes_eq l.ready.state (ascii "ready"))) (d, l.ready) e v ve in
      if-IsTracked l.expired_first (d, cancelled) g v
        (if-IsTracked (not l.starts) (d, unavailable) f v vf)
