-- ===== src/Touchpad/Kernel/Release.antt =====
-- The key events of `frame`, and the events of `cancel` and `hardReset`, as the kernel takes them.
use phonepad.Base.{
  Bool, Bool-cases, List, [], arith, false, inl, inr, pos, refl, suc, true, ℕ, ℤ, ◌<◌, ◌==◌, ◌||◌,
  ◌∷◌, ◌≡◌, ◌≢◌,
}
use phonepad.Touchpad.Events.{
  evt, abs_mt_tracking_id, abs_mt_tool_type, mt_tool_palm, btn_touch, btn_tool_finger,
  btn_tool_doubletap, btn_tool_tripletap, btn_tool_quadtap, btn_tool_quinttap, all_bits, tool_bit,
  free, is_free, count_events, key_releases, slot_marks, slot_lifts,
}
use phonepad.Touchpad.Kernel.{Kernel, feed, feeds, write, SameFrom, SameFrom-below, key_down}

abbrev pub in_bits : ℕ → Bool
in_bits code =
    code == btn_tool_finger
    || code == btn_tool_doubletap
    || code == btn_tool_tripletap
    || code == btn_tool_quadtap
    || code == btn_tool_quinttap
    || code == btn_touch

-- No key but the touchpad's own is down.
abbrev pub OnlyBits : Kernel → Type 0
OnlyBits k = (code : ℕ) → in_bits code ≡ false → k.keys code ≡ false

in_bits-tool_bit : (n : ℕ) → in_bits (tool_bit n) ≡ true
unfolding tool_bit
in_bits-tool_bit n = ground arith

tool_bit-ne-touch : (n : ℕ) → tool_bit n ≢ btn_touch
unfolding tool_bit
tool_bit-ne-touch n = ground arith

pub key_down-in_bits : (n code : ℕ) → in_bits code ≡ false → key_down n code ≡ false
key_down-in_bits n code h = ground (arith, in_bits-tool_bit n)

pub tracking-count_events :
    (old n : ℕ) (k : Kernel) → (feeds k (count_events old n)).tracking ≡ k.tracking
unfolding feeds count_events
tracking-count_events old n k = ground arith

pub keys-count_events :
    (old n code : ℕ) (k : Kernel)
    → k.keys code ≡ key_down old code
    → (feeds k (count_events old n)).keys code ≡ key_down n code
unfolding feeds count_events
keys-count_events old n code k h = ground (arith, tool_bit-ne-touch old, tool_bit-ne-touch n)

pub tracking-key_releases :
    (codes : List ℕ) (k : Kernel) → (feeds k (key_releases codes)).tracking ≡ k.tracking
unfolding feeds key_releases
tracking-key_releases [] k = refl
tracking-key_releases (c ∷ cs) k = tracking-key_releases cs (feed k (evt 1 c (pos 0)))

-- All the touchpad's keys are up after their releases.
pub keys-key_releases :
    (k : Kernel) (code : ℕ) → OnlyBits k → (feeds k (key_releases all_bits)).keys code ≡ false
unfolding feeds key_releases
keys-key_releases k code h = ground (arith, h code)

abbrev pub frees : List ℤ → List ℤ
frees [] = []
frees (sid ∷ ss) = free ∷ frees ss

pub record Freed (i : ℕ) (ss : List ℤ) (k k' : Kernel) : Type 0 where
  pub slots : SameFrom i (frees ss) k'.tracking
  pub below : (j : ℕ) → j < i → k'.tracking j ≡ k.tracking j
  pub keys : k'.keys ≡ k.keys

-- Marking contacts as palms moves no tracking identifier and no key.
pub slot_marks_palm :
    (ss : List ℤ) (i : ℕ) (k : Kernel)
    → let k' = feeds k (slot_marks i abs_mt_tool_type (pos mt_tool_palm) ss) in
      (k'.tracking ≡ k.tracking) × (k'.keys ≡ k.keys)
unfolding feeds slot_marks
slot_marks_palm [] i k = (refl, refl)
slot_marks_palm (sid ∷ ss) i k = elim (Bool-cases (is_free sid)) [
  | inl none_here ↦ rw none_here (slot_marks_palm ss (suc i) k)
  | inr one_here ↦ rw one_here (slot_marks_palm ss (suc i) (record k { slot = i }))
]

pub slot_marks-Freed :
    (ss : List ℤ) (i : ℕ) (k : Kernel)
    → SameFrom i ss k.tracking
    → Freed i ss k (feeds k (slot_marks i abs_mt_tracking_id free ss))
unfolding feeds slot_marks
slot_marks-Freed [] i k s = record { slots = tt; below = λ j h. refl; keys = refl }
slot_marks-Freed (sid ∷ ss) i k s = elim (Bool-cases (is_free sid)) [
  | inl none_here ↦ rw none_here (
      let rest = slot_marks-Freed ss (suc i) k s.1 in
      record {
        slots = (ground (arith, rest.below i), rest.slots);
        below = λ j h. rest.below j (omega arith);
        keys = rest.keys;
      })
  | inr one_here ↦ rw one_here (
      let k1 : Kernel = record k { slot = i; tracking = write k.tracking i free } in
      let rest =
        slot_marks-Freed ss (suc i) k1
          (SameFrom-below (suc i) i ss k.tracking free (omega arith) s.1) in
      record {
        slots = (ground (arith, rest.below i), rest.slots);
        below = λ j h. ground (arith, rest.below j);
        keys = rest.keys;
      })
]

pub slot_lifts-Freed : (ss : List ℤ) (i : ℕ) (k : Kernel) → Freed i ss k (feeds k (slot_lifts i ss))
unfolding feeds slot_lifts
slot_lifts-Freed [] i k = record { slots = tt; below = λ j h. refl; keys = refl }
slot_lifts-Freed (sid ∷ ss) i k =
    let k1 : Kernel = record k { slot = i; tracking = write k.tracking i free } in
    let rest = slot_lifts-Freed ss (suc i) k1 in
    record {
      slots = (ground (arith, rest.below i), rest.slots);
      below = λ j h. ground (arith, rest.below j);
      keys = rest.keys;
    }
