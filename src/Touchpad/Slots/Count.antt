-- ===== src/Touchpad/Slots/Count.antt =====
-- Enough slots: after the contacts that are gone have been lifted, the contacts without a slot are
-- no more than the vacant slots.
use phonepad.Base.{
  Bool-cases, List, [], ap, arith, eq_ℤ, eq_ℤ_iff, false, if◌then◌else◌, inl, inr, length, not,
  refl, subst, suc, true, ℕ, ℤ, ◌&&◌, ◌+◌, ◌∷◌, ◌≡◌, ◌≢◌, ◌≤◌, ◌⊎◌,
}
use phonepad.Touchpad.Events.{free, is_free}
use phonepad.Touchpad.Slots.{held, Apart, vacant}

-- Contact identifiers as a client sends them: no two alike, none of them the mark of a free slot.
abbrev pub AreIds : List ℤ → Type 0
AreIds [] = Unit {0}
AreIds (id ∷ ids) = (id ≢ free) × (held id ids ≡ false) × AreIds ids

-- The contacts that hold no slot.
unfoldable pub lacking : List ℤ → List ℤ → ℕ
lacking ss [] = 0
lacking ss (id ∷ ids) = let n = lacking ss ids in if held id ss then n else suc n

-- Every slot is vacant or held by one of the contacts.
abbrev pub Covered : List ℤ → List ℤ → Type 0
Covered [] ids = Unit {0}
Covered (sid ∷ ss) ids = ((is_free sid ≡ true) ⊎ (held sid ids ≡ true)) × Covered ss ids

clear : ℤ → List ℤ → List ℤ
clear id [] = []
clear id (sid ∷ ss) = (if eq_ℤ sid id then free else sid) ∷ clear id ss

held-clear :
    (id j : ℤ) (ss : List ℤ) → j ≢ free → held j (clear id ss) ≡ (not (eq_ℤ id j) && held j ss)
unfolding held clear
held-clear id j [] n = ground arith
held-clear id j (sid ∷ ss) n =
    ground
      (arith, held-clear id j ss, eq_ℤ_iff sid id, eq_ℤ_iff sid j, eq_ℤ_iff id j, eq_ℤ_iff free j)

length-clear : (id : ℤ) (ss : List ℤ) → length (clear id ss) ≡ length ss
unfolding clear
length-clear id [] = refl
length-clear id (sid ∷ ss) = ap suc (length-clear id ss)

clear_same : (id : ℤ) (ss : List ℤ) → held id ss ≡ false → clear id ss ≡ ss
unfolding held clear
clear_same id [] h = refl
clear_same id (sid ∷ ss) h = ground (arith, clear_same id ss)

vacant-clear :
    (id : ℤ) (ss : List ℤ)
    → id ≢ free
    → Apart ss
    → held id ss ≡ true
    → vacant (clear id ss) ≡ suc (vacant ss)
unfolding held vacant clear
vacant-clear id [] n a h = ground arith
vacant-clear id (sid ∷ ss) n a h =
    ground (arith, vacant-clear id ss, clear_same id ss, eq_ℤ_iff sid id, eq_ℤ_iff sid free)

Apart-clear : (id : ℤ) (ss : List ℤ) → Apart ss → Apart (clear id ss)
unfolding clear
Apart-clear id [] a = tt
Apart-clear id (sid ∷ ss) a =
    ground (arith, Apart-clear id ss, held-clear id sid ss, eq_ℤ_iff sid free)

-- Without the contact `id` the rest still covers the slots that `id` does not hold.
Covered-clear : (id : ℤ) (ss ids : List ℤ) → Covered ss (id ∷ ids) → Covered (clear id ss) ids
unfolding held clear
Covered-clear id [] ids c = tt
Covered-clear id (sid ∷ ss) ids c =
    ground (arith, Covered-clear id ss ids, eq_ℤ_iff sid id, eq_ℤ_iff id sid)

Covered-rest :
    (id : ℤ) (ss ids : List ℤ) → held id ss ≡ false → Covered ss (id ∷ ids) → Covered ss ids
Covered-rest id ss ids h c =
    subst (λ t. Covered t ids) (clear_same id ss h) (Covered-clear id ss ids c)

lacking-clear :
    (id : ℤ) (ss ids : List ℤ)
    → AreIds ids
    → held id ids ≡ false
    → lacking (clear id ss) ids ≡ lacking ss ids
unfolding lacking held
lacking-clear id ss [] d h = refl
lacking-clear id ss (j ∷ ids) d h =
    ground (arith, lacking-clear id ss ids, held-clear id j ss, eq_ℤ_iff j id, eq_ℤ_iff id j)

Covered-nobody : (ss : List ℤ) → Covered ss [] → length ss ≡ vacant ss
unfolding vacant held
Covered-nobody [] c = refl
Covered-nobody (sid ∷ ss) c = ground (arith, Covered-nobody ss)

pub lacking_room :
    (ids ss : List ℤ)
    → AreIds ids
    → Apart ss
    → Covered ss ids
    → length ss + lacking ss ids ≤ length ids + vacant ss
unfolding lacking
lacking_room [] ss d a c = omega (arith, Covered-nobody ss c)
lacking_room (id ∷ ids) ss d a c = elim (Bool-cases (held id ss)) [
  | inl holds ↦ rw holds (
      omega (
        arith,
        lacking_room ids (clear id ss) d.2 (Apart-clear id ss a) (Covered-clear id ss ids c),
        length-clear id ss,
        vacant-clear id ss d.0 a holds,
        lacking-clear id ss ids d.2 d.1,
      ))
  | inr lacks ↦ rw lacks (omega (arith, lacking_room ids ss d.2 a (Covered-rest id ss ids lacks c)))
]
