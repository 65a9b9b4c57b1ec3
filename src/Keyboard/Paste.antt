-- ===== src/Keyboard/Paste.antt =====
-- clipboardLiteralText of daemon/internal/input/clipboard_literal_linux.go, with the keys that paste.
-- The process that keeps the clipboard, the context and the shortcut's setting are a parameter: what
-- each of them answers in one paste.
use Prim.Native.String.{String}
use phonepad.Base.{
  Bool, Bytes, List, [], ascii, bytes_eq, false, if◌then◌else◌, not, true, ℕ, ◌&&◌, ◌++◌, ◌||◌, ◌∷◌,
}
use phonepad.TextUpload.World.{LiteralResult}
use phonepad.Keyboard.Device.{Device, VendorAnswer, key_down, key_press, key_up, release_keys}
use phonepad.Keyboard.Combo.{is_executed}

-- `expired` is the context at each of its three checks, `starts` is whether startClipboardLease
-- succeeds, `arms` and `sends` are the sends of "arm" and "sent", the receipts are what `read`
-- returns each time, and `ctrl_shift_v` is the shortcut.
pub record Lease : Type 0 where
  pub expired_first : Bool
  pub starts : Bool
  pub ready : LiteralResult
  pub expired_ready : Bool
  pub arms : Bool
  pub armed : LiteralResult
  pub expired_armed : Bool
  pub ctrl_shift_v : Bool
  pub sends : Bool
  pub receipt : LiteralResult

abbrev literal : String → String → LiteralResult
literal state detail = record { state = ascii state; detail = ascii detail; target = [] }

abbrev pub cancelled : LiteralResult
cancelled = literal "rejected" "cancelled_before_dispatch"

abbrev pub unavailable : LiteralResult
unavailable = literal "rejected" "clipboard_preservation_unavailable"

module _ (vendor : ℕ → VendorAnswer) where
  -- The loop that presses the modifiers; `before` are those already down. One that is not executed
  -- ends it, and then every modifier so far is let go, the first one first.
  unfoldable pub press_modifiers : Device → List ℕ → List ℕ → Device × Bool
  press_modifiers d before [] = (d, true)
  press_modifiers d before (c ∷ cs) =
      let (d', down) = key_down vendor d c in
      let so_far = before ++ c ∷ [] in
      let rest = press_modifiers d' so_far cs in
      if not (is_executed down.state) then (release_keys vendor d' so_far, false) else rest

  -- The loop that lets them go, and whether all were; the codes are listed in the order of the calls.
  unfoldable pub release_modifiers : Device → List ℕ → Device × Bool
  release_modifiers d [] = (d, true)
  release_modifiers d (c ∷ cs) =
      let (d', up) = key_up vendor d c in
      let (d'', all) = release_modifiers d' cs in (d'', is_executed up.state && all)

  module _ (uinput : Bytes → ℕ) where
    abbrev modifiers_of : Bool → List ℕ
    modifiers_of shift =
        uinput (ascii "KeyLeftctrl") ∷ (if shift then uinput (ascii "KeyLeftshift") ∷ [] else [])

    abbrev backwards : Bool → List ℕ
    backwards shift =
        if shift
        then uinput (ascii "KeyLeftshift") ∷ uinput (ascii "KeyLeftctrl") ∷ []
        else uinput (ascii "KeyLeftctrl") ∷ []

    -- From the first key to the result.
    unfoldable pub dispatch_paste : Device → Lease → Device × LiteralResult
    dispatch_paste d l =
        let (d1, down) = press_modifiers d [] (modifiers_of l.ctrl_shift_v) in
        let (d2, press) = key_press vendor d1 (uinput (ascii "KeyV")) in
        let (d3, up) = release_modifiers d2 (backwards l.ctrl_shift_v) in
        if not down
        then (d1, literal "uncertain" "paste_dispatch_unconfirmed")
        else if not (is_executed press.state) || not up || not l.sends
        then (d3, literal "uncertain" "paste_dispatch_unconfirmed")
        else (d3, l.receipt)

    unfoldable pub clipboard_literal_text : Device → Lease → Device × LiteralResult
    clipboard_literal_text d l =
        if l.expired_first
        then (d, cancelled)
        else if not l.starts
        then (d, unavailable)
        else if not (bytes_eq l.ready.state (ascii "ready"))
        then (d, l.ready)
        else if l.expired_ready || not l.arms
        then (d, cancelled)
        else if not (bytes_eq l.armed.state (ascii "armed"))
        then (d, l.armed)
        else if l.expired_armed
        then (d, cancelled)
        else dispatch_paste d l
