-- ===== src/Clipboard/Shown.antt =====
-- The mirror images and turns that the orientations of EXIF stand for, and that applyJPEGOrientation
-- of daemon/internal/server/clipboard.go performs them.
use phonepad.Base.{ap, arith, if◌then◌else◌, refl, suc, zero, ℕ, ◌-◌, ◌<◌, ◌==◌, ◌≤◌}
use phonepad.Clipboard.Orient.{Picture, place_of, apply_jpeg_orientation}
use phonepad.Clipboard.Turns.{Shows, Comes, turn_rows-Shows}

module _ (Color : Type 0) where
  -- Left and right exchanged; rows and columns exchanged; a quarter turn clockwise.
  abbrev pub mirrored : Picture Color → Picture Color
  mirrored p = record p { at = λ a b. p.at (p.width - 1 - a) b }

  abbrev pub transposed : Picture Color → Picture Color
  transposed p = record { width = p.height; height = p.width; at = λ a b. p.at b a }

  abbrev pub turned : Picture Color → Picture Color
  turned p = mirrored (transposed p)

  abbrev pub shown : ℕ → Picture Color → Picture Color
  shown orientation p =
      if orientation == 2
      then mirrored p
      else if orientation == 3
      then turned (turned p)
      else if orientation == 4
      then turned (turned (mirrored p))
      else if orientation == 5
      then transposed p
      else if orientation == 6
      then turned p
      else if orientation == 7
      then turned (turned (transposed p))
      else turned (turned (turned p))

  module _ (convert : Color → Color) (blank : Color) (src : Picture Color) where
    -- The pixel of the source that comes to (a, b).
    source_of : ℕ → ℕ → ℕ → ℕ × ℕ
    source_of orientation a b =
        let w = src.width in
        let h = src.height in
        if orientation == 2
        then (w - 1 - a, b)
        else if orientation == 3
        then (w - 1 - a, h - 1 - b)
        else if orientation == 4
        then (a, h - 1 - b)
        else if orientation == 5
        then (b, a)
        else if orientation == 6
        then (b, h - 1 - a)
        else if orientation == 7
        then (w - 1 - b, h - 1 - a)
        else (w - 1 - b, a)

    abbrev Sourced : ℕ → Type 0
    Sourced k =
        (a b : ℕ)
        → a < (shown k src).width
        → b < (shown k src).height
        → Comes Color convert blank (place_of Color convert blank k src.width src.height) src
            (shown k src) a b (source_of k a b).0 (source_of k a b).1

    two_Sourced : Sourced 2
    unfolding place_of source_of
    two_Sourced a b h k = record {
      in_width = omega arith;
      in_height = omega arith;
      hits = λ x y l m. (λ e f. (omega arith, omega arith), λ e f. (omega arith, omega arith));
      same = refl;
    }

    three_Sourced : Sourced 3
    unfolding place_of source_of
    three_Sourced a b h k = record {
      in_width = omega arith;
      in_height = omega arith;
      hits = λ x y l m. (λ e f. (omega arith, omega arith), λ e f. (omega arith, omega arith));
      same = refl;
    }

    four_Sourced : Sourced 4
    unfolding place_of source_of
    four_Sourced a b h k = record {
      in_width = omega arith;
      in_height = omega arith;
      hits = λ x y l m. (λ e f. (omega arith, omega arith), λ e f. (omega arith, omega arith));
      same = ap (λ x. src.at x (src.height - 1 - b)) (omega arith);
    }

    five_Sourced : Sourced 5
    unfolding place_of source_of
    five_Sourced a b h k = record {
      in_width = omega arith;
      in_height = omega arith;
      hits = λ x y l m. (λ e f. (omega arith, omega arith), λ e f. (omega arith, omega arith));
      same = refl;
    }

    six_Sourced : Sourced 6
    unfolding place_of source_of
    six_Sourced a b h k = record {
      in_width = omega arith;
      in_height = omega arith;
      hits = λ x y l m. (λ e f. (omega arith, omega arith), λ e f. (omega arith, omega arith));
      same = refl;
    }

    seven_Sourced : Sourced 7
    unfolding place_of source_of
    seven_Sourced a b h k = record {
      in_width = omega arith;
      in_height = omega arith;
      hits = λ x y l m. (λ e f. (omega arith, omega arith), λ e f. (omega arith, omega arith));
      same = refl;
    }

    eight_Sourced : Sourced 8
    unfolding place_of source_of
    eight_Sourced a b h k = record {
      in_width = omega arith;
      in_height = omega arith;
      hits = λ x y l m. (λ e f. (omega arith, omega arith), λ e f. (omega arith, omega arith));
      same = ap (λ y. src.at (src.width - 1 - b) y) (omega arith);
    }

    -- An orientation from 2 to 8 gives the picture that EXIF means by it, pixel for pixel: mirrored, a
    -- half turn, mirrored upside down, transposed, a quarter turn clockwise, the other transposition,
    -- or three quarter turns.
    pub apply_jpeg_orientation-Shows :
        (orientation : ℕ)
        → 2 ≤ orientation
        → orientation ≤ 8
        → Shows Color convert
            (apply_jpeg_orientation Color convert blank src orientation)
            (shown orientation src)
    unfolding apply_jpeg_orientation
    apply_jpeg_orientation-Shows zero h k = absurd (omega arith)
    apply_jpeg_orientation-Shows (suc zero) h k = absurd (omega arith)
    apply_jpeg_orientation-Shows (suc (suc zero)) h k =
        turn_rows-Shows Color convert blank (place_of Color convert blank 2 src.width src.height)
          src (shown 2 src) (source_of 2) two_Sourced
    apply_jpeg_orientation-Shows (suc (suc (suc zero))) h k =
        turn_rows-Shows Color convert blank (place_of Color convert blank 3 src.width src.height)
          src (shown 3 src) (source_of 3) three_Sourced
    apply_jpeg_orientation-Shows (suc (suc (suc (suc zero)))) h k =
        turn_rows-Shows Color convert blank (place_of Color convert blank 4 src.width src.height)
          src (shown 4 src) (source_of 4) four_Sourced
    apply_jpeg_orientation-Shows (suc (suc (suc (suc (suc zero))))) h k =
        turn_rows-Shows Color convert blank (place_of Color convert blank 5 src.width src.height)
          src (shown 5 src) (source_of 5) five_Sourced
    apply_jpeg_orientation-Shows (suc (suc (suc (suc (suc (suc zero)))))) h k =
        turn_rows-Shows Color convert blank (place_of Color convert blank 6 src.width src.height)
          src (shown 6 src) (source_of 6) six_Sourced
    apply_jpeg_orientation-Shows (suc (suc (suc (suc (suc (suc (suc zero))))))) h k =
        turn_rows-Shows Color convert blank (place_of Color convert blank 7 src.width src.height)
          src (shown 7 src) (source_of 7) seven_Sourced
    apply_jpeg_orientation-Shows (suc (suc (suc (suc (suc (suc (suc (suc zero)))))))) h k =
        turn_rows-Shows Color convert blank (place_of Color convert blank 8 src.width src.height)
          src (shown 8 src) (source_of 8) eight_Sourced
    apply_jpeg_orientation-Shows (suc (suc (suc (suc (suc (suc (suc (suc (suc k))))))))) h l =
        absurd (omega arith)
