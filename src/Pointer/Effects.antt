-- ===== src/Pointer/Effects.antt =====
-- What the desktop sees of the calls of a linearTouch.
use phonepad.Base.{Bool, List, [], false, if◌then◌else◌, true, ◌||◌, ◌∷◌, ◌≡◌}
use phonepad.Pointer.Geometry.{PointerMath, Contact}
use phonepad.Pointer.LinearTouch.{Effect, lets_go, lifts_all, moves, presses, touches}

module _ (pm : PointerMath) where
  -- Whether the last call about the button, the newest first, pressed it.
  abbrev pub asked : List (Effect pm) → Bool
  asked [] = false
  asked (presses ∷ es) = true
  asked (lets_go ∷ es) = false
  asked (lifts_all ∷ es) = asked es
  asked (moves dx dy ∷ es) = asked es
  asked (touches cs ∷ es) = asked es

  abbrev pub some_contact : List (Contact pm) → Bool
  some_contact [] = false
  some_contact (c ∷ cs) = true

  -- Whether the recogniser of several fingers has a finger down.
  abbrev pub fingers : List (Effect pm) → Bool
  fingers [] = false
  fingers (presses ∷ es) = fingers es
  fingers (lets_go ∷ es) = fingers es
  fingers (lifts_all ∷ es) = false
  fingers (moves dx dy ∷ es) = fingers es
  fingers (touches cs ∷ es) = some_contact cs

  -- The button is pressed only after it was let go, and let go only after it was pressed.
  abbrev pub Alternates : List (Effect pm) → Type 0
  Alternates [] = Unit
  Alternates (presses ∷ es) = (asked es ≡ false) × Alternates es
  Alternates (lets_go ∷ es) = (asked es ≡ true) × Alternates es
  Alternates (lifts_all ∷ es) = Alternates es
  Alternates (moves dx dy ∷ es) = Alternates es
  Alternates (touches cs ∷ es) = Alternates es

  module _ (fails : List (Effect pm) → Bool) where
    -- Whether the desktop may have the button down: a press that fails may have pressed it all the
    -- same, and a release that fails may have left it down.
    abbrev pub held : List (Effect pm) → Bool
    held [] = false
    held (presses ∷ es) = true
    held (lets_go ∷ es) = if fails (lets_go ∷ es) then held es else false
    held (lifts_all ∷ es) = held es
    held (moves dx dy ∷ es) = held es
    held (touches cs ∷ es) = held es

    -- Whether a call that let the button go has failed.
    abbrev pub lost_release : List (Effect pm) → Bool
    lost_release [] = false
    lost_release (presses ∷ es) = lost_release es
    lost_release (lets_go ∷ es) = fails (lets_go ∷ es) || lost_release es
    lost_release (lifts_all ∷ es) = lost_release es
    lost_release (moves dx dy ∷ es) = lost_release es
    lost_release (touches cs ∷ es) = lost_release es
