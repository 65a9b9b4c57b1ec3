-- ===== src/Touchpad/Frame.antt =====
-- Who holds which slot after `frame`.
use phonepad.Base.{
  List, Option-cases, [], ap, arith, eq_ℤ_iff, get_elem?, inl, inr, length, refl, set, some, suc,
  true, zero, ℕ, ℤ, ◌&&◌, ◌∙◌, ◌∷◌, ◌≡◌, ◌≢◌, ◌≤◌,
}
use phonepad.Floats.{FloatOps}
use phonepad.Touchpad.Events.{
  MtState, Contact, free, max_slots, present, slot_of, assign, lifts, place, place_all, frame,
}
use phonepad.Touchpad.Slots.{held, Apart, vacant}
use phonepad.Touchpad.Slots.Count.{AreIds, lacking, Covered, lacking_room}
use phonepad.Touchpad.Slots.Assign.{assign_all, assign_all-Gains}

-- The table has its five slots, and no contact holds two.
pub record IsTable (ss : List ℤ) : Type 0 where
  pub five : length ss ≡ max_slots
  pub apart : Apart ss

pub length-set {ℓ} : {A : Type ℓ} (xs : List A) (i : ℕ) (v : A) → length (set xs i v) ≡ length xs
length-set [] i v = refl
length-set (x ∷ xs) zero v = refl
length-set (x ∷ xs) (suc i) v = ap suc (length-set xs i v)

length-assign : (ss : List ℤ) (id : ℤ) → length (assign ss id).1 ≡ length ss
unfolding assign
length-assign ss id = elim (Option-cases (slot_of free ss)) [
  | inl e ↦ ground arith
  | inr (i, e) ↦ ground (arith, length-set ss i id)
]

length-assign_all : (ids ss : List ℤ) → length (assign_all ss ids) ≡ length ss
unfolding assign_all
length-assign_all [] ss = refl
length-assign_all (id ∷ ids) ss = length-assign_all ids (assign ss id).1 ∙ length-assign ss id

module _ (fl : FloatOps) where
  unfoldable pub ids : List (Contact fl) → List ℤ
  ids [] = []
  ids (c ∷ cs) = c.id ∷ ids cs

  present-ids : (cs : List (Contact fl)) (id : ℤ) → present fl cs id ≡ held id (ids cs)
  unfolding present ids held
  present-ids [] id = refl
  present-ids (c ∷ cs) id = ground (arith, present-ids cs id)

  length-ids : (cs : List (Contact fl)) → length (ids cs) ≡ length cs
  unfolding ids
  length-ids [] = refl
  length-ids (c ∷ cs) = ap suc (length-ids cs)

  held-lifts :
      (ss : List ℤ) (cs : List (Contact fl)) (i : ℕ) (id : ℤ)
      → id ≢ free
      → held id (lifts fl i ss cs).1 ≡ (held id ss && present fl cs id)
  unfolding held lifts
  held-lifts [] cs i id n = refl
  held-lifts (sid ∷ ss) cs i id n =
      ground
        (arith, held-lifts ss cs (suc i) id, eq_ℤ_iff sid id, eq_ℤ_iff free id, eq_ℤ_iff sid free)

  Apart-lifts :
      (ss : List ℤ) (cs : List (Contact fl)) (i : ℕ) → Apart ss → Apart (lifts fl i ss cs).1
  unfolding lifts
  Apart-lifts [] cs i a = tt
  Apart-lifts (sid ∷ ss) cs i a =
      ground (arith, Apart-lifts ss cs (suc i), held-lifts ss cs (suc i) sid, eq_ℤ_iff sid free)

  length-lifts :
      (ss : List ℤ) (cs : List (Contact fl)) (i : ℕ) → length (lifts fl i ss cs).1 ≡ length ss
  unfolding lifts
  length-lifts [] cs i = refl
  length-lifts (sid ∷ ss) cs i = ground (arith, length-lifts ss cs (suc i))

  Covered-lifts :
      (ss : List ℤ) (cs : List (Contact fl)) (i : ℕ) → Covered (lifts fl i ss cs).1 (ids cs)
  unfolding lifts
  Covered-lifts [] cs i = tt
  Covered-lifts (sid ∷ ss) cs i = ground (arith, Covered-lifts ss cs (suc i), present-ids cs sid)

  get_elem?-lifts :
      (ss : List ℤ) (cs : List (Contact fl)) (i k : ℕ) (id : ℤ)
      → present fl cs id ≡ true
      → get_elem? ss k ≡ some id
      → get_elem? (lifts fl i ss cs).1 k ≡ some id
  unfolding lifts
  get_elem?-lifts [] cs i k id p h = ground arith
  get_elem?-lifts (sid ∷ ss) cs i zero id p h = ground arith
  get_elem?-lifts (sid ∷ ss) cs i (suc k) id p h =
      ground (arith, get_elem?-lifts ss cs (suc i) k id p)

  slot_id-place :
      (s : MtState) (c : Contact fl) → (place fl s c).1.slot_id ≡ (assign s.slot_id c.id).1
  unfolding place assign
  slot_id-place s c = ground arith

  slot_id-place_all :
      (cs : List (Contact fl)) (s : MtState)
      → (place_all fl s cs).1.slot_id ≡ assign_all s.slot_id (ids cs)
  unfolding place_all assign_all ids
  slot_id-place_all [] s = refl
  slot_id-place_all (c ∷ cs) s =
      slot_id-place_all cs (place fl s c).1 ∙ ap (λ ss. assign_all ss (ids cs)) (slot_id-place s c)

  -- How the table after a frame follows from the snapshot and the table before.
  pub record Tracks (cs : List (Contact fl)) (ss ss' : List ℤ) : Type 0 where
    pub table : IsTable ss'
    pub exact : (id : ℤ) → id ≢ free → held id ss' ≡ present fl cs id
    pub stays :
        (k : ℕ) (id : ℤ)
        → id ≢ free
        → present fl cs id ≡ true
        → get_elem? ss k ≡ some id
        → get_elem? ss' k ≡ some id

  -- A snapshot of at most five contacts with different identifiers, none of them -1, leaves a table
  -- in which exactly those contacts hold a slot, each one slot, and a contact that had a slot keeps
  -- it.
  pub frame-Tracks :
      (s : MtState) (cs : List (Contact fl))
      → IsTable s.slot_id
      → length cs ≤ max_slots
      → AreIds (ids cs)
      → Tracks cs s.slot_id (frame fl s cs).1.slot_id
  unfolding frame
  frame-Tracks s cs table few d =
      let lifted = (lifts fl 0 s.slot_id cs).1 in
      let apart : Apart lifted = Apart-lifts s.slot_id cs 0 table.apart in
      let room : (lacking lifted (ids cs) ≤ vacant lifted) = omega (
        arith,
        lacking_room (ids cs) lifted d apart (Covered-lifts s.slot_id cs 0),
        length-lifts s.slot_id cs 0,
        length-ids cs,
        table.five,
      ) in
      let gains = assign_all-Gains (ids cs) lifted d apart room in
      rw (slot_id-place_all cs (record s { slot_id = lifted })) (record {
        table = record {
          five = length-assign_all (ids cs) lifted ∙ length-lifts s.slot_id cs 0 ∙ table.five;
          apart = gains.apart;
        };
        exact = λ id n.
            ground (arith, gains.holds id n, held-lifts s.slot_id cs 0 id n, present-ids cs id);
        stays = λ k id n p h. gains.stays k id n (get_elem?-lifts s.slot_id cs 0 k id p h);
      })
