-- ===== src/Base/Interleavings.antt =====
-- A list shared out over two lists, each of which keeps its order.
use mathlib.Core.List.{List, [], ◌∷◌, ◌++◌}

module _ {A : Type 0} where
  pub data Splits : List A → List A → List A → Type 0 where
    ends : Splits [] [] []
    keeps : {zs xs ys : List A} (x : A) → Splits zs xs ys → Splits (x ∷ zs) (x ∷ xs) ys
    drops : {zs xs ys : List A} (y : A) → Splits zs xs ys → Splits (y ∷ zs) xs (y ∷ ys)

  pub Splits-append :
      {zs xs ys ws us vs : List A}
      → Splits zs xs ys
      → Splits ws us vs
      → Splits (zs ++ ws) (xs ++ us) (ys ++ vs)
  Splits-append ends k = k
  Splits-append (keeps x h) k = keeps x (Splits-append h k)
  Splits-append (drops y h) k = drops y (Splits-append h k)

  pub Splits-keeps : (xs : List A) → Splits xs xs []
  Splits-keeps [] = ends
  Splits-keeps (x ∷ xs) = keeps x (Splits-keeps xs)

  pub Splits-parts : (xs ys : List A) → Splits (xs ++ ys) xs ys
  Splits-parts [] [] = ends
  Splits-parts [] (y ∷ ys) = drops y (Splits-parts [] ys)
  Splits-parts (x ∷ xs) ys = keeps x (Splits-parts xs ys)
