-- ===== src/Touchpad/Slots/Assign.antt =====
-- Assigning slots to all contacts of a snapshot.
use phonepad.Base.{
  Bool-cases, List, [], arith, eq_ℤ_iff, false, get_elem?, inl, inr, refl, set, some, suc, true,
  zero, ℕ, ℤ, ◌<◌, ◌||◌, ◌∷◌, ◌≡◌, ◌≢◌, ◌≤◌, ◌⊎◌,
}
use phonepad.Touchpad.Events.{free, slot_of, assign}
use phonepad.Touchpad.Slots.{
  held, Apart, vacant, slot_of-held, slot_of-some, held-free-vacant, held-set, Apart-set,
  vacant-set,
}
use phonepad.Touchpad.Slots.Count.{AreIds, lacking}

unfoldable pub assign_all : List ℤ → List ℤ → List ℤ
assign_all ss [] = ss
assign_all ss (id ∷ ids) = assign_all (assign ss id).1 ids

lacking-set :
    (id : ℤ) (ss : List ℤ) (i : ℕ) (ids : List ℤ)
    → slot_of free ss ≡ some i
    → AreIds ids
    → lacking (set ss i id) ids ≤ lacking ss ids
unfolding lacking
lacking-set id ss i [] h d = omega arith
lacking-set id ss i (j ∷ ids) h d = ground (arith, lacking-set id ss i ids, held-set id j ss i)

-- What `assign` does to the table, where there is a vacant slot for a contact that has none.
pub assign_cases :
    (ss : List ℤ) (id : ℤ)
    → id ≢ free
    → (held id ss ≡ false → 0 < vacant ss)
    → ((held id ss ≡ true)
        × (i : ℕ) × (slot_of id ss ≡ some i)
        × (assign ss id ≡ (some (i, false), ss)))
      ⊎ ((held id ss ≡ false)
          × (i : ℕ) × (slot_of free ss ≡ some i)
          × (assign ss id ≡ (some (i, true), set ss i id)))
unfolding assign
assign_cases ss id n room = elim (Bool-cases (held id ss)) [
  | inl holds ↦ let (i, e) = slot_of-some id ss holds in inl (holds, i, e, rw (e, assign))
  | inr lacks ↦
      let (i, e) = slot_of-some free ss (held-free-vacant ss (room lacks)) in
      inr (lacks, i, e, rw (slot_of-held id ss lacks, assign) (rw (e, assign)))
]

get_elem?-set_other :
    (ss : List ℤ) (i k : ℕ) (id j : ℤ)
    → slot_of free ss ≡ some i
    → j ≢ free
    → get_elem? ss k ≡ some j
    → get_elem? (set ss i id) k ≡ some j
unfolding slot_of
get_elem?-set_other [] i k id j h n e = ground arith
get_elem?-set_other (sid ∷ ss) zero zero id j h n e = ground (arith, eq_ℤ_iff sid free)
get_elem?-set_other (sid ∷ ss) zero (suc k) id j h n e = e
get_elem?-set_other (sid ∷ ss) (suc i) zero id j h n e = e
get_elem?-set_other (sid ∷ ss) (suc i) (suc k) id j h n e =
    get_elem?-set_other ss i k id j (ground arith) n e

-- What a table gains from the contacts `ids`.
pub record Gains (ids ss ss' : List ℤ) : Type 0 where
  pub apart : Apart ss'
  pub holds : (j : ℤ) → j ≢ free → held j ss' ≡ (held j ids || held j ss)
  pub stays : (k : ℕ) (j : ℤ) → j ≢ free → get_elem? ss k ≡ some j → get_elem? ss' k ≡ some j

assign-Gains :
    (ss : List ℤ) (id : ℤ) (ids : List ℤ)
    → AreIds (id ∷ ids)
    → Apart ss
    → lacking ss (id ∷ ids) ≤ vacant ss
    → Gains (id ∷ []) ss (assign ss id).1 × (lacking (assign ss id).1 ids ≤ vacant (assign ss id).1)
unfolding lacking held
assign-Gains ss id ids d a room = elim (assign_cases ss id d.0 (λ lacks. ground arith)) [
  | inl (holds, i, e, f) ↦ rw f (
    record { apart = a; holds = λ j n. ground (arith, eq_ℤ_iff id j); stays = λ k j n h. h },
    ground arith,
  )
  | inr (lacks, i, e, f) ↦ rw f (
    record {
      apart = Apart-set id ss i e d.0 lacks a;
      holds = λ j n. ground (arith, held-set id j ss i e n);
      stays = λ k j n h. get_elem?-set_other ss i k id j e n h;
    },
    ground (arith, lacking-set id ss i ids e d.2, vacant-set id ss i e d.0),
  )
]

pub assign_all-Gains :
    (ids ss : List ℤ)
    → AreIds ids
    → Apart ss
    → lacking ss ids ≤ vacant ss
    → Gains ids ss (assign_all ss ids)
unfolding assign_all held
assign_all-Gains [] ss d a room = record { apart = a; holds = λ j n. refl; stays = λ k j n h. h }
assign_all-Gains (id ∷ ids) ss d a room =
    let (first, room') = assign-Gains ss id ids d a room in
    let rest = assign_all-Gains ids (assign ss id).1 d.2 first.apart room' in
    record {
      apart = rest.apart;
      holds = λ j n. ground (arith, rest.holds j n, first.holds j n);
      stays = λ k j n h. rest.stays k j n (first.stays k j n h);
    }
