-- ===== src/Keyboard/Typing.antt =====
-- planText and Text of daemon/internal/input/input.go. `keys` is the active layout: the chord that
-- types a rune.
use phonepad.Base.{Bool, Bytes, List, Option, [], ascii, false, none, some, suc, true, ℕ, ◌++◌, ◌∷◌}
use phonepad.Keyboard.Paste.{Lease, clipboard_literal_text}
use phonepad.Keyboard.Device.{Device, VendorAnswer, key_down, key_press, key_up}

pub record KeyChord : Type 0 where
  pub code : ℕ
  pub shift : Bool
  pub altgr : Bool

-- textOp: a chord, or the runes that are pasted.
pub data TextOp : Type 0 where
  pastes : List ℕ → TextOp
  chords : KeyChord → TextOp

-- `flush`
abbrev pub flush : List TextOp → List ℕ → List TextOp
flush ops [] = ops
flush ops (r ∷ buf) = ops ++ pastes (r ∷ buf) ∷ []

module _ (keys : ℕ → Option KeyChord) where
  -- The loop over the runes, with its two variables.
  unfoldable pub plan_from : List TextOp → List ℕ → List ℕ → List TextOp
  plan_from ops buf [] = flush ops buf
  plan_from ops buf (r ∷ rs) = elim (keys r) [
    | some chord ↦ plan_from (flush ops buf ++ chords chord ∷ []) [] rs
    | none ↦ plan_from ops (buf ++ r ∷ []) rs
  ]

  unfoldable pub plan_text : List ℕ → List TextOp
  plan_text s = plan_from [] [] s

module _ (vendor : ℕ → VendorAnswer) (uinput : Bytes → ℕ) where
  abbrev pub when : Bool → (Device → Device) → Device → Device
  when true f d = f d
  when false f d = d

  -- One operation. A paste goes through the clipboard and the keys of the paste shortcut, and what
  -- it answers is only logged.
  unfoldable pub type_op : Lease → Device → TextOp → Device
  type_op lease d (pastes s) = (clipboard_literal_text vendor uinput d lease).0
  type_op lease d (chords k) =
      let shift = uinput (ascii "KeyLeftshift") in
      let altgr = uinput (ascii "KeyRightalt") in
      let d1 = when k.shift (λ x. (key_down vendor x shift).0) d in
      let d2 = when k.altgr (λ x. (key_down vendor x altgr).0) d1 in
      let d3 = (key_press vendor d2 k.code).0 in
      let d4 = when k.altgr (λ x. (key_up vendor x altgr).0) d3 in
      when k.shift (λ x. (key_up vendor x shift).0) d4

  -- `leases` says how the clipboard answers in each operation, by its number.
  unfoldable pub type_ops : (ℕ → Lease) → Device → List TextOp → Device
  type_ops leases d [] = d
  type_ops leases d (op ∷ ops) = type_ops (λ n. leases (suc n)) (type_op (leases 0) d op) ops
