-- ===== src/Clipboard/Orient.antt =====
-- applyJPEGOrientation of daemon/internal/server/clipboard.go. Pixels are counted from the bounds'
-- corner. `convert` is the color model of image.RGBA, and `blank` its color before the first write.
use phonepad.Base.{if◌then◌else◌, leb, ltb, suc, zero, ℕ, ◌&&◌, ◌-◌, ◌==◌, ◌||◌}

module _ (Color : Type 0) where
  pub record Picture : Type 0 where
    pub width : ℕ
    pub height : ℕ
    pub at : ℕ → ℕ → Color

  module _ (convert : Color → Color) (blank : Color) where
    -- `dst.Set(dx, dy, c)`, which ignores a point out of bounds.
    unfoldable pub set_pixel : Picture → ℕ × ℕ → Color → Picture
    set_pixel dst (dx, dy) c =
        if ltb dx dst.width && ltb dy dst.height
        then record dst { at = λ a b. if a == dx && b == dy then convert c else dst.at a b }
        else dst

    -- The loop over `x` in a row, with the number of pixels that are left; then the one over `y`.
    unfoldable pub turn_row : (ℕ → ℕ → ℕ × ℕ) → Picture → ℕ → ℕ → ℕ → Picture → Picture
    turn_row place src y x zero dst = dst
    turn_row place src y x (suc left) dst =
        turn_row place src y (suc x) left (set_pixel dst (place x y) (src.at x y))

    unfoldable pub turn_rows : (ℕ → ℕ → ℕ × ℕ) → Picture → ℕ → ℕ → Picture → Picture
    turn_rows place src y zero dst = dst
    turn_rows place src y (suc left) dst =
        turn_rows place src (suc y) left (turn_row place src y 0 src.width dst)

    -- The switch: where the pixel (x, y) of a picture goes.
    unfoldable pub place_of : ℕ → ℕ → ℕ → ℕ → ℕ → ℕ × ℕ
    place_of orientation w h x y =
        if orientation == 2
        then (w - 1 - x, y)
        else if orientation == 3
        then (w - 1 - x, h - 1 - y)
        else if orientation == 4
        then (x, h - 1 - y)
        else if orientation == 5
        then (y, x)
        else if orientation == 6
        then (h - 1 - y, x)
        else if orientation == 7
        then (h - 1 - y, w - 1 - x)
        else if orientation == 8
        then (y, w - 1 - x)
        else (x, y)

    -- image.NewRGBA of a size.
    abbrev pub new_rgba : ℕ → ℕ → Picture
    new_rgba w h = record { width = w; height = h; at = λ a b. blank }

    unfoldable pub apply_jpeg_orientation : Picture → ℕ → Picture
    apply_jpeg_orientation src orientation =
        let w = src.width in
        let h = src.height in
        let dst = if leb 5 orientation then new_rgba h w else new_rgba w h in
        if leb orientation 1 || ltb 8 orientation
        then src
        else turn_rows (place_of orientation w h) src 0 h dst
