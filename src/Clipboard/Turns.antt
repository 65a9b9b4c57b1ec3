-- ===== src/Clipboard/Turns.antt =====
-- What the loops of applyJPEGOrientation of daemon/internal/server/clipboard.go make of a picture.
use phonepad.Base.{
  ap, arith, if◌then◌else◌, leb, refl, suc, true, zero, ℕ, ◌&&◌, ◌+◌, ◌<◌, ◌==◌, ◌∙◌, ◌≡◌,
}
use phonepad.Clipboard.Orient.{Picture, set_pixel, turn_row, new_rgba, turn_rows}

module _ (Color : Type 0) where
  -- The same size and, within it, the same pixels, after a conversion of those of the second.
  pub record Shows (convert : Color → Color) (p q : Picture Color) : Type 0 where
    pub width : p.width ≡ q.width
    pub height : p.height ≡ q.height
    pub at : (a b : ℕ) → a < q.width → b < q.height → p.at a b ≡ convert (q.at a b)

  module _ (convert : Color → Color) (blank : Color) where
    set_pixel-at :
        (dst : Picture Color) (p : ℕ × ℕ) (c : Color) (a b : ℕ)
        → a < dst.width
        → b < dst.height
        → (set_pixel Color convert blank dst p c).at a b
          ≡ (if a == p.0 && b == p.1 then convert c else dst.at a b)
    unfolding set_pixel
    set_pixel-at dst p c a b h k = ground arith

    set_pixel-size :
        (dst : Picture Color) (p : ℕ × ℕ) (c : Color)
        → ((set_pixel Color convert blank dst p c).width ≡ dst.width)
          × ((set_pixel Color convert blank dst p c).height ≡ dst.height)
    unfolding set_pixel
    set_pixel-size dst p c = ground arith

    module _ (place : ℕ → ℕ → ℕ × ℕ) (src : Picture Color) where
      turn_row-size :
          (y x left : ℕ) (dst : Picture Color)
          → ((turn_row Color convert blank place src y x left dst).width ≡ dst.width)
            × ((turn_row Color convert blank place src y x left dst).height ≡ dst.height)
      unfolding turn_row
      turn_row-size y x zero dst = (refl, refl)
      turn_row-size y x (suc left) dst =
          let dst' = set_pixel Color convert blank dst (place x y) (src.at x y) in
          let (e, f) = turn_row-size y (suc x) left dst' in
          let (e', f') = set_pixel-size dst (place x y) (src.at x y) in (e ∙ e', f ∙ f')

      module _ (a b sx sy : ℕ) where
        -- The pixel (sx, sy) of the source goes to (a, b), and (x, y) does so only if it is that one.
        abbrev pub Hits : ℕ → ℕ → Type 0
        Hits x y =
            (x ≡ sx → y ≡ sy → ((place x y).0 ≡ a) × ((place x y).1 ≡ b))
            × ((place x y).0 ≡ a → (place x y).1 ≡ b → (x ≡ sx) × (y ≡ sy))

        turn_row-at :
            (y x left : ℕ) (dst : Picture Color)
            → x + left ≡ src.width
            → sx < src.width
            → a < dst.width
            → b < dst.height
            → ((x' : ℕ) → x' < src.width → Hits x' y)
            → (turn_row Color convert blank place src y x left dst).at a b
              ≡ (if y == sy && leb x sx then convert (src.at sx sy) else dst.at a b)
        unfolding turn_row
        turn_row-at y x zero dst e s h k hits = ground arith
        turn_row-at y x (suc left) dst e s h k hits =
            let dst' = set_pixel Color convert blank dst (place x y) (src.at x y) in
            let size = set_pixel-size dst (place x y) (src.at x y) in
            let rest =
              turn_row-at y (suc x) left dst' (omega arith) s (omega (arith, size))
                (omega (arith, size)) hits in
            let one = set_pixel-at dst (place x y) (src.at x y) a b h k in
            let (to, from) = hits x (omega arith) in rest ∙ grind arith

        turn_rows-at :
            (y left : ℕ) (dst : Picture Color)
            → y + left ≡ src.height
            → sx < src.width
            → sy < src.height
            → a < dst.width
            → b < dst.height
            → ((x' y' : ℕ) → x' < src.width → y' < src.height → Hits x' y')
            → (turn_rows Color convert blank place src y left dst).at a b
              ≡ (if leb y sy then convert (src.at sx sy) else dst.at a b)
        unfolding turn_rows
        turn_rows-at y zero dst e s t h k hits = ground arith
        turn_rows-at y (suc left) dst e s t h k hits =
            let dst' = turn_row Color convert blank place src y 0 src.width dst in
            let size = turn_row-size y 0 src.width dst in
            let one =
              turn_row-at y 0 src.width dst (omega arith) s h k
                (λ x' l. hits x' y l (omega arith)) in
            turn_rows-at (suc y) left dst' (omega arith) s t (omega (arith, size))
              (omega (arith, size)) hits
            ∙ grind arith

      turn_rows-size :
          (y left : ℕ) (dst : Picture Color)
          → ((turn_rows Color convert blank place src y left dst).width ≡ dst.width)
            × ((turn_rows Color convert blank place src y left dst).height ≡ dst.height)
      unfolding turn_rows
      turn_rows-size y zero dst = (refl, refl)
      turn_rows-size y (suc left) dst =
          let (e, f) =
            turn_rows-size (suc y) left
              (turn_row Color convert blank place src y 0 src.width dst) in
          let (e', f') = turn_row-size y 0 src.width dst in (e ∙ e', f ∙ f')

      -- What a picture `q` shows at (a, b) comes from (sx, sy).
      pub record Comes (q : Picture Color) (a b sx sy : ℕ) : Type 0 where
        pub in_width : sx < src.width
        pub in_height : sy < src.height
        pub hits : (x y : ℕ) → x < src.width → y < src.height → Hits a b sx sy x y
        pub same : src.at sx sy ≡ q.at a b

      pub turn_rows-Shows :
          (q : Picture Color) (from : ℕ → ℕ → ℕ × ℕ)
          → ((a b : ℕ) → a < q.width → b < q.height → Comes q a b (from a b).0 (from a b).1)
          → Shows convert
              (turn_rows Color convert blank place src 0 src.height
                (new_rgba Color convert blank q.width q.height))
              q
      turn_rows-Shows q from comes =
          let dst = new_rgba Color convert blank q.width q.height in
          let (e, f) = turn_rows-size 0 src.height dst in
          record {
            width = e;
            height = f;
            at = λ a b h k.
                let c = comes a b h k in
                let first : leb 0 (from a b).1 ≡ true = ground arith in
                (rw first at (
                  turn_rows-at a b (from a b).0 (from a b).1 0 src.height dst (omega arith)
                    c.in_width c.in_height h k c.hits))
                ∙ ap convert c.same;
          }
