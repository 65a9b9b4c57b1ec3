-- ===== src/Touchpad/Scale.antt =====
-- `scale` of daemon/internal/input/touchpad.go stays on the device.
use phonepad.Base.{Bool-cases, false, inl, inr, pos, subst, ℕ, ◌≡◌, ◌≤ℤ◌}
use phonepad.Floats.{FloatOps}
use phonepad.Touchpad.Events.{scale}

module _ (fl : FloatOps) where
  open fl use {Float, less, zero_point, one, half, times, plus, of_int32, to_int32}

  -- a ≤ b for two numbers.
  abbrev pub NotAbove : Float → Float → Type 0
  NotAbove a b = less b a ≡ false

  -- What `scale` relies on of IEEE 754 arithmetic: multiplication by an int32 that is not negative,
  -- addition of a half and truncation keep the order of numbers (NaN is none), and are exact at 0
  -- and 1.
  pub record FloatLaws : Type 1 where
    pub IsNumber : Float → Type 0
    pub zero_number : IsNumber zero_point
    pub one_number : IsNumber one
    pub times_number : (a : Float) (m : ℕ) → IsNumber a → IsNumber (times a (of_int32 (pos m)))
    pub plus_number : (a : Float) → IsNumber a → IsNumber (plus a half)
    pub less_irrefl : (a : Float) → IsNumber a → less a a ≡ false
    pub times_mono :
        (a b : Float) (m : ℕ)
        → IsNumber a
        → IsNumber b
        → NotAbove a b
        → NotAbove (times a (of_int32 (pos m))) (times b (of_int32 (pos m)))
    pub plus_mono :
        (a b : Float)
        → IsNumber a
        → IsNumber b
        → NotAbove a b
        → NotAbove (plus a half) (plus b half)
    pub trunc_mono :
        (a b : Float) → IsNumber a → IsNumber b → NotAbove a b → to_int32 a ≤ℤ to_int32 b
    pub exact_zero : (m : ℕ) → to_int32 (plus (times zero_point (of_int32 (pos m))) half) ≡ pos 0
    pub exact_one : (m : ℕ) → to_int32 (plus (times one (of_int32 (pos m))) half) ≡ pos m
    pub unit : NotAbove zero_point one

  module _ (laws : FloatLaws) where
    rounded-mono :
        (a b : Float) (m : ℕ)
        → laws.IsNumber a
        → laws.IsNumber b
        → NotAbove a b
        → to_int32 (plus (times a (of_int32 (pos m))) half)
          ≤ℤ to_int32 (plus (times b (of_int32 (pos m))) half)
    rounded-mono a b m p q h =
        let ta = laws.times_number a m p in
        let tb = laws.times_number b m q in
        laws.trunc_mono _ _ (laws.plus_number _ ta) (laws.plus_number _ tb)
          (laws.plus_mono _ _ ta tb (laws.times_mono a b m p q h))

    rounded_bounds :
        (v : Float) (m : ℕ)
        → laws.IsNumber v
        → NotAbove zero_point v
        → NotAbove v one
        → let r = to_int32 (plus (times v (of_int32 (pos m))) half) in (pos 0 ≤ℤ r) × (r ≤ℤ pos m)
    rounded_bounds v m p low high = (
      subst (λ z. z ≤ℤ to_int32 (plus (times v (of_int32 (pos m))) half)) (laws.exact_zero m)
          (rounded-mono zero_point v m laws.zero_number p low),
      subst (λ z. to_int32 (plus (times v (of_int32 (pos m))) half) ≤ℤ z) (laws.exact_one m)
          (rounded-mono v one m p laws.one_number high),
    )

    -- Every number, also outside 0..1, is mapped into the device's range 0..max.
    scale_bounds :
        (v : Float) (m : ℕ)
        → laws.IsNumber v
        → (pos 0 ≤ℤ scale fl v (pos m)) × (scale fl v (pos m) ≤ℤ pos m)
    unfolding scale
    scale_bounds v m p = elim (Bool-cases (less v zero_point)) [
      | inl low ↦
          rw (low, scale)
            (rounded_bounds zero_point m laws.zero_number
              (laws.less_irrefl zero_point laws.zero_number) laws.unit)
      | inr fine ↦ elim (Bool-cases (less one v)) [
        | inl high ↦
            rw (fine, scale)
              (rw (high, scale)
                (rounded_bounds one m laws.one_number laws.unit
                  (laws.less_irrefl one laws.one_number)))
        | inr inside ↦ rw (fine, scale) (rw (inside, scale) (rounded_bounds v m p fine inside))
      ]
    ]
