-- ===== src/Pointer/LinearTouch.antt =====
-- linearTouch of daemon/internal/input/linear_touch.go. The callbacks are recorded, newest first;
-- `fails` says whether the call at the head of such a record returns an error.
use phonepad.Base.{
  Bool, List, Option, [], ascii, bytes_eq, eq_ℤ, false, if◌then◌else◌, leb, ltb, none, not, some,
  true, ℕ, ℤ, ◌&&◌, ◌*◌, ◌-◌, ◌^◌, ◌||◌, ◌∷◌,
}
use phonepad.Pointer.Geometry.{PointerMath, Contact, PointerGeometry}

module _ (pm : PointerMath) where
  open pm use {Float, minus, times, hypot, less, at_most, is_zero, hundredths}

  -- A call of a callback. Its outcome is not in the record: `fails` gives it.
  pub data Effect : Type 0 where
    presses lets_go lifts_all : Effect
    moves : Float → Float → Effect
    touches : List (Contact pm) → Effect

  -- Times are in nanoseconds; a zero time is `none`. `start` and `last_tap_contact` have no value
  -- until they are first written.
  pub record LinearTouch : Type 0 where
    pub previous : Option (Contact pm)
    pub start : Contact pm
    pub started : ℕ
    pub moved : Bool
    pub multi : Bool
    pub down : Bool
    pub blocked : Bool
    pub last_tap : Option ℕ
    pub last_tap_contact : Contact pm
    pub effects : List Effect

  -- `&linearTouch{…}`; the contacts of a zero struct are never read.
  unfoldable pub new_linear_touch : Contact pm → LinearTouch
  new_linear_touch zero_contact = record {
    previous = none;
    start = zero_contact;
    started = 0;
    moved = false;
    multi = false;
    down = false;
    blocked = false;
    last_tap = none;
    last_tap_contact = zero_contact;
    effects = [];
  }

  abbrev pub milliseconds : ℕ → ℕ
  milliseconds n = n * 10 ^ 6

  abbrev pub call : LinearTouch → Effect → LinearTouch
  call p e = record p { effects = e ∷ p.effects }

  abbrev pub is_some : Option (Contact pm) → Bool
  is_some none = false
  is_some (some c) = true

  unfoldable pub idle : LinearTouch → Bool
  idle p = not (is_some p.previous) && not p.multi && not p.down

  abbrev pub same_id : ℤ → ℤ → Bool
  same_id a b = eq_ℤ a b

  -- The width and height that count.
  abbrev pub span : PointerGeometry pm → Float × Float
  span g =
      if bytes_eq g.kind (ascii "square-centered")
      then (g.side_mm, g.side_mm)
      else (g.width_mm, g.height_mm)

  abbrev pub distance : Contact pm → Contact pm → Float × Float → Float
  distance a b (w, h) = hypot (times (minus a.x b.x) w) (times (minus a.y b.y) h)

  -- `!lastTap.IsZero() && now.Sub(lastTap) < 300ms`
  abbrev pub just_tapped : Option ℕ → ℕ → Bool
  just_tapped none now = false
  just_tapped (some t) now = ltb (now - t) (milliseconds 300)

  -- What drives a pointer over its life.
  pub data Input : Type 0 where
    frames : List (Contact pm) → PointerGeometry pm → ℕ → Input
    cancels : Input

  abbrev pub is_several : List (Contact pm) → Bool
  is_several [] = false
  is_several (c ∷ []) = false
  is_several (c ∷ d ∷ rest) = true

  module _ (fails : List Effect → Bool) where
    unfoldable pub release : LinearTouch → LinearTouch
    release p =
        let p' = call (record p { down = false }) lets_go in
        if not p.down then p else if fails p'.effects then record p' { blocked = true } else p'

    unfoldable pub cancel : LinearTouch → LinearTouch
    cancel p = record (call (release p) lifts_all) {
      previous = none;
      multi = false;
      last_tap = none;
    }

    unfoldable pub multi_frame : LinearTouch → List (Contact pm) → LinearTouch
    multi_frame p cs =
        let p' =
          if p.multi
          then p
          else record (release p) { previous = none; multi = true; last_tap = none } in
        let p'' = call p' (touches cs) in
        elim cs [ [] ↦ record p'' { multi = false } | c ∷ rest ↦ p'' ]

    unfoldable pub click : LinearTouch → ℕ → LinearTouch
    click p now =
        let pressed = call (record p { down = true }) presses in
        let released = release pressed in
        if fails pressed.effects || released.blocked
        then record released { blocked = true }
        else record released { last_tap = some now; last_tap_contact = p.start }

    unfoldable pub lift_frame : LinearTouch → ℕ → LinearTouch
    lift_frame p now =
        record (if not (is_some p.previous)
          then p
          else if p.down
          then release p
          else if not p.moved && leb (now - p.started) (milliseconds 250)
          then click p now
          else p) { previous = none }

    -- A second tap soon after the first presses the button: the start of a drag.
    unfoldable pub touch_down : LinearTouch → Contact pm → Float × Float → ℕ → LinearTouch
    touch_down p c size now =
        let began = record p { start = c; started = now; moved = false } in
        let pressed = call (record began { down = true }) presses in
        let dragging =
          if not (
            just_tapped p.last_tap now
            && less (distance c p.last_tap_contact size) (hundredths 300))
          then began
          else if fails pressed.effects
          then release (record pressed { blocked = true })
          else pressed in
        record dragging { last_tap = none; previous = some c }

    unfoldable pub touch_move : LinearTouch → Contact pm → Contact pm → Float × Float → LinearTouch
    touch_move p q c (w, h) =
        let dx = times (minus c.x q.x) w in
        let dy = times (minus c.y q.y) h in
        let far =
          if less (hundredths 80) (distance c p.start (w, h))
          then record p { moved = true }
          else p in
        let sent = call far (moves (times dx (hundredths 2000)) (times dy (hundredths 2000))) in
        let after =
          if is_zero dx && is_zero dy
          then far
          else if fails sent.effects
          then release (record sent { blocked = true })
          else sent in
        record after { previous = some c }

    unfoldable pub single_frame : LinearTouch → Contact pm → Float × Float → ℕ → LinearTouch
    single_frame p c size now = elim p.previous [
      | none ↦ touch_down p c size now
      | some q ↦ if not (same_id c.id q.id) then cancel p else touch_move p q c size
    ]

    unfoldable pub one_or_none : LinearTouch → List (Contact pm) → Float × Float → ℕ → LinearTouch
    one_or_none p [] size now = lift_frame p now
    one_or_none p (c ∷ rest) size now = single_frame p c size now

    unfoldable pub contacts_frame :
        LinearTouch → List (Contact pm) → Float × Float → ℕ → LinearTouch
    contacts_frame p cs size now =
        if is_several cs || p.multi then multi_frame p cs else one_or_none p cs size now

    unfoldable pub frame : LinearTouch → List (Contact pm) → PointerGeometry pm → ℕ → LinearTouch
    frame p cs g now =
        if p.blocked
        then call p (touches cs)
        else if at_most (span g).0 (hundredths 0) || at_most (span g).1 (hundredths 0)
        then cancel p
        else contacts_frame p cs (span g) now

    unfoldable pub step : LinearTouch → Input → LinearTouch
    step p (frames cs g now) = frame p cs g now
    step p cancels = cancel p

    unfoldable pub run : LinearTouch → List Input → LinearTouch
    run p [] = p
    run p (i ∷ is) = run (step p i) is
