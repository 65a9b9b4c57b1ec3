-- ===== src/Touchpad/Kernel/Lift.antt =====
-- The lift events of `frame`, as the kernel takes them.
use phonepad.Base.{Bool-cases, List, [], arith, inl, inr, not, refl, suc, ℕ, ℤ, ◌&&◌, ◌<◌, ◌∷◌, ◌≡◌}
use phonepad.Floats.{FloatOps}
use phonepad.Touchpad.Events.{Contact, free, is_free, lifts, present}
use phonepad.Touchpad.Kernel.{Kernel, feeds, write, SameFrom, SameFrom-below}

pub record Lifted (i : ℕ) (ss : List ℤ) (k k' : Kernel) : Type 0 where
  pub slots : SameFrom i ss k'.tracking
  pub below : (j : ℕ) → j < i → k'.tracking j ≡ k.tracking j
  pub keys : k'.keys ≡ k.keys

module _ (fl : FloatOps) where
  pub lifts-Lifted :
      (ss : List ℤ) (cs : List (Contact fl)) (i : ℕ) (k : Kernel)
      → SameFrom i ss k.tracking
      → Lifted i (lifts fl i ss cs).1 k (feeds k (lifts fl i ss cs).0)
  unfolding lifts feeds
  lifts-Lifted [] cs i k s = record { slots = tt; below = λ j h. refl; keys = refl }
  lifts-Lifted (sid ∷ ss) cs i k s =
      elim (Bool-cases (not (is_free sid) && not (present fl cs sid))) [
        | inl gone ↦ rw gone (
            let k1 : Kernel = record k { slot = i; tracking = write k.tracking i free } in
            let rest =
              lifts-Lifted ss cs (suc i) k1
                (SameFrom-below (suc i) i ss k.tracking free (omega arith) s.1) in
            record {
              slots = (ground (arith, rest.below i), rest.slots);
              below = λ j h. ground (arith, rest.below j);
              keys = rest.keys;
            })
        | inr kept ↦ rw kept (
            let rest = lifts-Lifted ss cs (suc i) k s.1 in
            record {
              slots = (ground (arith, rest.below i), rest.slots);
              below = λ j h. rest.below j (omega arith);
              keys = rest.keys;
            })
      ]
