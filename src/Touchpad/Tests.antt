-- ===== src/Touchpad/Tests.antt =====
-- The theorems on the touchpad at concrete inputs, over fixed-point numbers in halves.
use phonepad.Base.{
  List, [], arith, false, ltb, pos, pos_part, refl, ℕ, ◌*◌, ◌+◌, ◌/◌, ◌==◌, ◌∷◌, ◌≡◌, ◌≤◌,
}
use phonepad.Floats.{FloatOps}
use phonepad.Touchpad.Events.{Contact, no_slots, new_mt_state, frame, hard_reset}
use phonepad.Touchpad.Slots.{held}
use phonepad.Touchpad.Frame.{Tracks, ids, frame-Tracks}
use phonepad.Touchpad.Kernel.{Kernel, Agrees, feeds}
use phonepad.Touchpad.Kernel.Refines.{hard_reset-Agrees}
use phonepad.Touchpad.History.{Action, frames, cancels, hard_resets, blank, perform, perform-Agrees}
use phonepad.Touchpad.Scale.{FloatLaws}

abbrev pub halves : FloatOps
halves = record {
  Float = ℕ;
  less = ltb;
  zero_point = 0;
  one = 2;
  half = 1;
  times = λ a b. a * b / 2;
  plus = λ a b. a + b;
  of_int32 = λ z. 2 * pos_part z;
  to_int32 = λ a. pos (a / 2);
  is_nan = λ x. false;
  is_inf = λ x. false;
}

halved : (a m : ℕ) → a * (2 * m) / 2 ≡ a * m
halved a m = omega arith

mul_mono : (a b m : ℕ) → a ≤ b → a * m ≤ b * m
mul_mono a b m h = grind arith

times_mono_halves : (a b m : ℕ) → ltb b a ≡ false → ltb (b * (2 * m) / 2) (a * (2 * m) / 2) ≡ false
times_mono_halves a b m h = rw (halved a m, halved b m) (ground (arith, mul_mono a b m))

halves-FloatLaws : FloatLaws halves
halves-FloatLaws = record {
  IsNumber = λ a. Unit;
  zero_number = tt;
  one_number = tt;
  times_number = λ a m u. tt;
  plus_number = λ a u. tt;
  less_irrefl = λ a u. ground arith;
  times_mono = λ a b m u v h. times_mono_halves a b m h;
  plus_mono = λ a b u v h. ground arith;
  trunc_mono = λ a b u v h. ground arith;
  exact_zero = λ m. ground arith;
  exact_one = λ m. ground arith;
  unit = refl;
}

abbrev thumb : Contact halves
thumb = record { id = pos 4; x = 1; y = 2 }

abbrev index : Contact halves
index = record { id = pos 9; x = 0; y = 1 }

abbrev pub two_fingers : List (Contact halves)
two_fingers = thumb ∷ index ∷ []

frame-Tracks_example :
    Tracks halves two_fingers no_slots
      (frame halves (new_mt_state (pos 4000) (pos 2800)) two_fingers).1.slot_id
unfolding new_mt_state ids held
frame-Tracks_example =
    frame-Tracks halves (new_mt_state (pos 4000) (pos 2800)) two_fingers (ground arith)
      (omega arith) (ground arith)

abbrev session : List (Action halves)
session =
    frames two_fingers ∷ frames (index ∷ []) ∷ cancels ∷ frames (thumb ∷ []) ∷ hard_resets ∷ []

perform-Agrees_example :
    let (events, s) = perform halves (new_mt_state (pos 4000) (pos 2800)) session in
    Agrees s (feeds blank events)
unfolding ids held
perform-Agrees_example =
    perform-Agrees halves (pos 4000) (pos 2800) session (ground arith) (omega arith)

-- A write that was cut short left a contact and a tool bit that the daemon knows nothing of.
abbrev torn : Kernel
torn = record { slot = 3; tracking = λ i. pos 8; keys = λ code. code == 0x14d }

hard_reset-Agrees_example :
    let s = new_mt_state (pos 4000) (pos 2800) in
    Agrees (hard_reset s).1 (feeds torn (hard_reset s).0)
hard_reset-Agrees_example =
    hard_reset-Agrees (new_mt_state (pos 4000) (pos 2800)) torn (λ code h. ground arith)
