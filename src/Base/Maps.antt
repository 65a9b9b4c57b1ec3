-- ===== src/Base/Maps.antt =====
-- Go's maps with string or integer keys, as association lists. A key that is put a second time
-- keeps its place, so the length counts the keys.
use Prim.Native.Nat.{ℕ, suc, ◌≤◌}
use mathlib.Core.Bool.{Bool, true, false, ◌||◌}
use mathlib.Core.Path.{◌≡◌, refl}
use mathlib.Core.Logic.{◌⊎◌}
use mathlib.Core.Option.{Option, none, some}
use mathlib.Core.List.{List, [], ◌∷◌}
use native.Mathlib.Omega.{arith}
use phonepad.Base.Tests.{◌==◌, if◌then◌else◌}
use phonepad.Base.Lists.{length}
use phonepad.Base.ByteStrings.{Bytes, bytes_eq, bytes_eq_iff, bytes_eq_refl}

module _ {ℓ} {A : Type ℓ} where
  unfoldable pub get : Bytes → List (Bytes × A) → Option A
  get k [] = none
  get k ((key, a) ∷ rest) = let found = get k rest in if bytes_eq key k then some a else found

  unfoldable pub put : Bytes → A → List (Bytes × A) → List (Bytes × A)
  put k v [] = (k, v) ∷ []
  put k v ((key, a) ∷ rest) =
      let later = put k v rest in if bytes_eq key k then (key, v) ∷ rest else (key, a) ∷ later

  unfoldable pub get_at : ℕ → List (ℕ × A) → Option A
  get_at k [] = none
  get_at k ((key, a) ∷ rest) = let found = get_at k rest in if key == k then some a else found

  unfoldable pub remove_at : ℕ → List (ℕ × A) → List (ℕ × A)
  remove_at k [] = []
  remove_at k ((key, a) ∷ rest) =
      let others = remove_at k rest in if key == k then others else (key, a) ∷ others

  abbrev pub put_at : ℕ → A → List (ℕ × A) → List (ℕ × A)
  put_at k v rest = (k, v) ∷ remove_at k rest

  pub get-put_if :
      (i k : Bytes) (v : A) (entries : List (Bytes × A))
      → get i (put k v entries) ≡ (if bytes_eq k i then some v else get i entries)
  unfolding get put
  get-put_if i k v [] = refl
  get-put_if i k v ((key, a) ∷ rest) =
      ground
        (arith, get-put_if i k v rest, bytes_eq_iff key k, bytes_eq_iff key i, bytes_eq_iff k i)

  pub get-put : (k : Bytes) (v : A) (entries : List (Bytes × A)) → get k (put k v entries) ≡ some v
  get-put k v entries = ground (arith, get-put_if k k v entries, bytes_eq_refl k)

  pub length-put_known :
      (k : Bytes) (v a : A) (entries : List (Bytes × A))
      → get k entries ≡ some a
      → length (put k v entries) ≡ length entries
  unfolding get put
  length-put_known k v a [] h = ground arith
  length-put_known k v a ((key, b) ∷ rest) h = ground (arith, length-put_known k v a rest)

  pub length-put :
      (k : Bytes) (v : A) (entries : List (Bytes × A))
      → length (put k v entries) ≤ suc (length entries)
  unfolding put
  length-put k v [] = omega arith
  length-put k v ((key, b) ∷ rest) = ground (arith, length-put k v rest)

  unfoldable pub remove : Bytes → List (Bytes × A) → List (Bytes × A)
  remove k [] = []
  remove k ((key, a) ∷ rest) =
      let others = remove k rest in if bytes_eq key k then others else (key, a) ∷ others

  pub get-remove_if :
      (i k : Bytes) (entries : List (Bytes × A))
      → get i (remove k entries) ≡ (if bytes_eq k i then none else get i entries)
  unfolding get remove
  get-remove_if i k [] = ground arith
  get-remove_if i k ((key, a) ∷ rest) =
      ground
        (arith, get-remove_if i k rest, bytes_eq_iff key k, bytes_eq_iff key i, bytes_eq_iff k i)

  pub get-put_new :
      (i k : Bytes) (v a : A) (entries : List (Bytes × A))
      → get k entries ≡ none
      → get i entries ≡ some a
      → get i (put k v entries) ≡ some a
  get-put_new i k v a entries n h = ground (arith, get-put_if i k v entries, bytes_eq_iff k i)

  pub get-put_cases :
      (i k : Bytes) (v a : A) (entries : List (Bytes × A))
      → get i (put k v entries) ≡ some a
      → ((k ≡ i) × (v ≡ a)) ⊎ (get i entries ≡ some a)
  get-put_cases i k v a entries h = ground (arith, get-put_if i k v entries, bytes_eq_iff k i)

  unfoldable pub has : Bytes → List (Bytes × A) → Bool
  has k [] = false
  has k ((key, a) ∷ rest) = bytes_eq key k || has k rest

  pub length-remove :
      (k : Bytes) (entries : List (Bytes × A)) → length (remove k entries) ≤ length entries
  unfolding remove
  length-remove k [] = omega arith
  length-remove k ((key, a) ∷ rest) = ground (arith, length-remove k rest)

  pub length-remove_known :
      (k : Bytes) (entries : List (Bytes × A))
      → has k entries ≡ true
      → suc (length (remove k entries)) ≤ length entries
  unfolding remove has
  length-remove_known k [] h = ground arith
  length-remove_known k ((key, a) ∷ rest) h =
      ground (arith, length-remove_known k rest, length-remove k rest)
