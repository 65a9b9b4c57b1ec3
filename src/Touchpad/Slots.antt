-- ===== src/Touchpad/Slots.antt =====
-- Which contact holds which slot. Facts on the slot table alone; the contacts are given by their
-- identifiers.
pub mod Count
pub mod Assign
use phonepad.Base.{
  Bool, Bool-cases, List, [], arith, eq_ℤ, eq_ℤ_iff, false, get_elem?, if◌then◌else◌, inl, inr,
  none, refl, set, some, suc, true, zero, ℕ, ℤ, ◌<◌, ◌||◌, ◌∷◌, ◌≡◌, ◌≢◌, ◌⊎◌,
}
use phonepad.Touchpad.Events.{free, is_free, slot_of}

unfoldable pub held : ℤ → List ℤ → Bool
held id [] = false
held id (sid ∷ ss) = eq_ℤ sid id || held id ss

-- No contact holds two slots.
abbrev pub Apart : List ℤ → Type 0
Apart [] = Unit {0}
Apart (sid ∷ ss) = ((is_free sid ≡ true) ⊎ (held sid ss ≡ false)) × Apart ss

unfoldable pub vacant : List ℤ → ℕ
vacant [] = 0
vacant (sid ∷ ss) = let n = vacant ss in if is_free sid then suc n else n

pub slot_of-held : (id : ℤ) (ss : List ℤ) → held id ss ≡ false → slot_of id ss ≡ none
unfolding held slot_of
slot_of-held id [] h = refl
slot_of-held id (sid ∷ ss) h = ground (arith, slot_of-held id ss)

pub slot_of-some : (id : ℤ) (ss : List ℤ) → held id ss ≡ true → (i : ℕ) × (slot_of id ss ≡ some i)
unfolding held slot_of
slot_of-some id [] h = cc
slot_of-some id (sid ∷ ss) h = elim (Bool-cases (eq_ℤ sid id)) [
  | inl here ↦ (0, rw here)
  | inr there ↦ let (i, e) = slot_of-some id ss (ground arith) in (suc i, rw there (rw e))
]

pub held-free-vacant : (ss : List ℤ) → 0 < vacant ss → held free ss ≡ true
unfolding held vacant
held-free-vacant [] h = absurd (omega arith)
held-free-vacant (sid ∷ ss) h = ground (arith, held-free-vacant ss)

-- Writing a contact into the slot that `slot_of free` found.
pub held-set :
    (id j : ℤ) (ss : List ℤ) (i : ℕ)
    → slot_of free ss ≡ some i
    → j ≢ free
    → held j (set ss i id) ≡ (eq_ℤ id j || held j ss)
unfolding held slot_of
held-set id j [] i h n = ground arith
held-set id j (sid ∷ ss) zero h n = ground (arith, eq_ℤ_iff sid free, eq_ℤ_iff sid j)
held-set id j (sid ∷ ss) (suc i) h n = ground (arith, held-set id j ss i)

pub Apart-set :
    (id : ℤ) (ss : List ℤ) (i : ℕ)
    → slot_of free ss ≡ some i
    → id ≢ free
    → held id ss ≡ false
    → Apart ss
    → Apart (set ss i id)
unfolding held slot_of
Apart-set id [] i h n f a = tt
Apart-set id (sid ∷ ss) zero h n f a = ground arith
Apart-set id (sid ∷ ss) (suc i) h n f a = ground (
  arith,
  Apart-set id ss i,
  held-set id sid ss i,
  eq_ℤ_iff sid id,
  eq_ℤ_iff id sid,
  eq_ℤ_iff sid free,
)

pub vacant-set :
    (id : ℤ) (ss : List ℤ) (i : ℕ)
    → slot_of free ss ≡ some i
    → id ≢ free
    → vacant ss ≡ suc (vacant (set ss i id))
unfolding slot_of vacant
vacant-set id [] i h n = ground arith
vacant-set id (sid ∷ ss) zero h n = ground (arith, eq_ℤ_iff id free)
vacant-set id (sid ∷ ss) (suc i) h n = ground (arith, vacant-set id ss i)

pub get_elem?-slot_of :
    (id : ℤ) (ss : List ℤ) (i : ℕ) → slot_of id ss ≡ some i → get_elem? ss i ≡ some id
unfolding slot_of
get_elem?-slot_of id [] i h = ground arith
get_elem?-slot_of id (sid ∷ ss) zero h = ground (arith, eq_ℤ_iff sid id)
get_elem?-slot_of id (sid ∷ ss) (suc i) h = ground (arith, get_elem?-slot_of id ss i)
