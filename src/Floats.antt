-- ===== src/Floats.antt =====
-- Go's float64, which the model does not compute with: the operations that the program applies to
-- coordinates are parameters, and a theorem states as a hypothesis what it needs of them.
use phonepad.Base.{Bool, ℤ}

pub record FloatOps : Type 1 where
  pub Float : Type 0
  pub less : Float → Float → Bool
  pub zero_point : Float
  pub one : Float
  pub half : Float
  pub times : Float → Float → Float
  pub plus : Float → Float → Float
  pub of_int32 : ℤ → Float
  pub to_int32 : Float → ℤ
  pub is_nan : Float → Bool
  pub is_inf : Float → Bool
