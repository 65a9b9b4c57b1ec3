-- ===== src/Pointer/Geometry.antt =====
-- PointerGeometry of daemon/internal/input/contracts.go, with the operations on float64 that the
-- pointer applies. The model does not compute with floats: the operations are parameters.
use phonepad.Base.{Bool, Bytes, ℕ, ℤ}

pub record PointerMath : Type 1 where
  pub Float : Type 0
  pub minus : Float → Float → Float
  pub times : Float → Float → Float
  -- math.Hypot, `<`, `<=` and `== 0`
  pub hypot : Float → Float → Float
  pub less : Float → Float → Bool
  pub at_most : Float → Float → Bool
  pub is_zero : Float → Bool
  pub is_nan : Float → Bool
  pub is_inf : Float → Bool
  -- A literal, in hundredths.
  pub hundredths : ℕ → Float

module _ (pm : PointerMath) where
  open pm use {Float}

  pub record PointerGeometry : Type 0 where
    pub id : Bytes
    pub kind : Bytes
    pub width_mm : Float
    pub height_mm : Float
    pub side_mm : Float
    pub gain_mm_per_point : Float
    pub gain_source : Bytes
    pub gain_min_mm_per_point : Float
    pub gain_max_mm_per_point : Float
    pub geometry_epoch : ℕ

  pub record Contact : Type 0 where
    pub id : ℤ
    pub x : Float
    pub y : Float
