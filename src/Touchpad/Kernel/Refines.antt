-- ===== src/Touchpad/Kernel/Refines.antt =====
-- The daemon's state and the kernel's agree, over any history of the touchpad.
use phonepad.Base.{
  Bool-cases, List, [], ap, arith, eq_ℤ_iff, false, inl, inr, length, pos, refl, subst, suc, true,
  zero, ℕ, ℤ, ◌++◌, ◌+◌, ◌==◌, ◌∙◌, ◌∷◌, ◌≡◌, ◌≢◌, ◌≤◌,
}
use phonepad.Floats.{FloatOps}
use phonepad.Touchpad.Events.{
  Evt, MtState, Contact, sync, free, max_slots, no_slots, all_bits, active, abs_mt_tracking_id,
  abs_mt_tool_type, mt_tool_palm, slot_marks, slot_lifts, key_releases, count_events, present,
  lifts, place_all, pointer_events, frame, cancel, hard_reset, cleared,
}
use phonepad.Touchpad.Slots.{held}
use phonepad.Touchpad.Slots.Count.{AreIds}
use phonepad.Touchpad.Frame.{IsTable, Tracks, ids}
use phonepad.Touchpad.Kernel.{Kernel, feeds, feeds-append, SameFrom, Agrees}
use phonepad.Touchpad.Kernel.Lift.{lifts-Lifted}
use phonepad.Touchpad.Kernel.Place.{place_all-Placed}
use phonepad.Touchpad.Kernel.Release.{
  OnlyBits, frees, key_down-in_bits, tracking-count_events, keys-count_events,
  tracking-key_releases, keys-key_releases, slot_marks_palm, slot_marks-Freed, slot_lifts-Freed,
}

feeds-sync : (k : Kernel) → feeds k (sync ∷ []) ≡ k
unfolding feeds
feeds-sync k = refl

pub feeds-nil : (k : Kernel) → feeds k [] ≡ k
unfolding feeds
feeds-nil k = refl

feeds-sync_cons : (k : Kernel) (es : List Evt) → feeds k (sync ∷ es) ≡ feeds k es
unfolding feeds
feeds-sync_cons k es = refl

-- What holds of the state between two calls. `n` is the next tracking identifier.
pub record IsSettled (n : ℕ) (s : MtState) : Type 0 where
  pub table : IsTable s.slot_id
  pub tid : s.next_tid ≡ pos n
  pub started : 1 ≤ n
  -- Fingers are declared only while a slot is held.
  pub declared : active s.slot_id ≡ 0 → s.count ≡ 0

active-held : (ss : List ℤ) (id : ℤ) → held id ss ≡ true → id ≢ free → active ss ≢ 0
unfolding held active
active-held [] id h n z = cc
active-held (sid ∷ ss) id h n z =
    ground (arith, active-held ss id, eq_ℤ_iff sid id, eq_ℤ_iff sid free)

abbrev free_slots : ℕ → List ℤ
free_slots zero = []
free_slots (suc n) = free ∷ free_slots n

frees-length : (ss : List ℤ) → frees ss ≡ free_slots (length ss)
frees-length [] = refl
frees-length (sid ∷ ss) = ap (λ t. free ∷ t) (frees-length ss)

frees-no_slots : (ss : List ℤ) → length ss ≡ max_slots → frees ss ≡ no_slots
frees-no_slots ss h = frees-length ss ∙ ap free_slots h

no_slots-IsTable : IsTable no_slots
no_slots-IsTable = ground arith

active_none :
    (ss : List ℤ) (i : ℕ) (tracking : ℕ → ℤ)
    → active ss ≡ 0
    → SameFrom i ss tracking
    → SameFrom i (frees ss) tracking
unfolding active
active_none [] i tracking h s = tt
active_none (sid ∷ ss) i tracking h s = ground (arith, active_none ss (suc i) tracking)

-- The kernel after both reports of `cancel`.
feeds-cancel :
    (s : MtState) (k : Kernel)
    → (active s.slot_id == 0) ≡ false
    → let k1 = feeds k (slot_marks 0 abs_mt_tool_type (pos mt_tool_palm) s.slot_id) in
      let k2 = feeds k1 (slot_marks 0 abs_mt_tracking_id free s.slot_id) in
      feeds k (cancel s).0 ≡ feeds k2 (key_releases all_bits)
unfolding cancel
feeds-cancel s k h = rw (h, cancel) (simp (feeds-append, feeds-sync_cons, feeds-nil))

pub OnlyBits-agreed : (s : MtState) (k : Kernel) → Agrees s k → OnlyBits k
OnlyBits-agreed s k a code h = a.keys code ∙ key_down-in_bits s.count code h

cancel_idle :
    (s : MtState) (k : Kernel)
    → (active s.slot_id == 0) ≡ true
    → s.count ≡ 0
    → Agrees s k
    → Agrees (cancel s).1 (feeds k (cancel s).0)
unfolding cancel
cancel_idle s k idle quiet a =
    rw (idle, cancel)
      (rw (feeds-sync k) (record { slots = a.slots; keys = λ code. ground (arith, a.keys code) }))

cancel_busy :
    (s : MtState) (k : Kernel)
    → (active s.slot_id == 0) ≡ false
    → length s.slot_id ≡ max_slots
    → Agrees s k
    → Agrees (cleared s) (feeds k (cancel s).0)
cancel_busy s k busy five a =
    let k1 = feeds k (slot_marks 0 abs_mt_tool_type (pos mt_tool_palm) s.slot_id) in
    let k2 = feeds k1 (slot_marks 0 abs_mt_tracking_id free s.slot_id) in
    let palm = slot_marks_palm s.slot_id 0 k in
    let freed = slot_marks-Freed s.slot_id 0 k1 (rw palm.0 a.slots) in
    let same : (k2.keys ≡ k.keys) = freed.keys ∙ palm.1 in
    rw (feeds-cancel s k busy) (record {
      slots =
          rw (tracking-key_releases all_bits k2)
            (subst (λ ss. SameFrom 0 ss k2.tracking) (frees-no_slots s.slot_id five) freed.slots);
      keys =
          λ code. keys-key_releases k2 code (λ c h. ap (λ f. f c) same ∙ OnlyBits-agreed s k a c h);
    })

cancel-cleared : (s : MtState) → (active s.slot_id == 0) ≡ false → (cancel s).1 ≡ cleared s
unfolding cancel
cancel-cleared s h = rw (h, cancel)

-- After `cancel` the kernel sees no contact and no key down, as the daemon believes.
pub cancel-Agrees :
    (s : MtState) (n : ℕ) (k : Kernel)
    → IsSettled n s
    → Agrees s k
    → Agrees (cancel s).1 (feeds k (cancel s).0)
cancel-Agrees s n k v a = elim (Bool-cases (active s.slot_id == 0)) [
  | inl idle ↦ cancel_idle s k idle (v.declared (ground arith)) a
  | inr busy ↦ rw (cancel-cleared s busy) (cancel_busy s k busy v.table.five a)
]

pub cancel-IsSettled : (s : MtState) (n : ℕ) → IsSettled n s → IsSettled 1 (cancel s).1
unfolding cancel
cancel-IsSettled s n v = ground (arith, no_slots-IsTable)

-- `hard_reset` puts the kernel right whatever it holds, also after a write that was cut short:
-- only keys that are not the touchpad's must be up already.
pub hard_reset-Agrees :
    (s : MtState) (k : Kernel) → OnlyBits k → Agrees (hard_reset s).1 (feeds k (hard_reset s).0)
unfolding hard_reset
hard_reset-Agrees s k only =
    let k1 = feeds k (slot_lifts 0 no_slots) in
    let freed = slot_lifts-Freed no_slots 0 k in
    rw (feeds-append (slot_lifts 0 no_slots) (key_releases all_bits ++ sync ∷ []) k) (
      rw (feeds-append (key_releases all_bits) (sync ∷ []) k1) (
        rw (feeds-sync (feeds k1 (key_releases all_bits))) (record {
          slots = rw (tracking-key_releases all_bits k1) freed.slots;
          keys = λ code. keys-key_releases k1 code (λ c h. ap (λ f. f c) freed.keys ∙ only c h);
        })))

pub hard_reset-IsSettled : (s : MtState) → IsSettled 1 (hard_reset s).1
unfolding hard_reset
hard_reset-IsSettled s = ground (arith, no_slots-IsTable)

module _ (fl : FloatOps) where
  feeds-pointer_events :
      (s : MtState) (cs : List (Contact fl)) (k : Kernel) → feeds k (pointer_events fl s cs) ≡ k
  unfolding feeds pointer_events
  feeds-pointer_events s [] k = refl
  feeds-pointer_events s (c ∷ cs) k = refl

  -- The kernel after all the events of a frame.
  feeds-frame :
      (s : MtState) (cs : List (Contact fl)) (k : Kernel)
      → let lifted = lifts fl 0 s.slot_id cs in
        let k1 = feeds k lifted.0 in
        let k2 = feeds k1 (place_all fl (record s { slot_id = lifted.1 }) cs).0 in
        feeds k (frame fl s cs).0 ≡ feeds k2 (count_events s.count (length cs))
  unfolding frame
  feeds-frame s cs k = simp (feeds-append, feeds-pointer_events, feeds-sync)

  pub frame-Agrees :
      (s : MtState) (cs : List (Contact fl)) (n : ℕ) (k : Kernel)
      → s.next_tid ≡ pos n
      → 1 ≤ n
      → n + length cs ≤ 2147483647
      → Agrees s k
      → Agrees (frame fl s cs).1 (feeds k (frame fl s cs).0)
  frame-Agrees s cs n k t p b a =
      let lifted = lifts-Lifted fl s.slot_id cs 0 k a.slots in
      let s1 : MtState = record s { slot_id = (lifts fl 0 s.slot_id cs).1 } in
      let k1 = feeds k (lifts fl 0 s.slot_id cs).0 in
      let placed = place_all-Placed fl cs s1 n k1 t p b lifted.slots in
      let k2 = feeds k1 (place_all fl s1 cs).0 in
      rw (feeds-frame s cs k) (
        unfold frame in
        record {
          slots = rw (tracking-count_events s.count (length cs) k2) placed.slots;
          keys = λ code. keys-count_events s.count (length cs) code k2 (
              ground
                (arith, a.keys code, ap (λ f. f code) placed.keys, ap (λ f. f code) lifted.keys));
        })

  abbrev pub IsSnapshot : List (Contact fl) → Type 0
  IsSnapshot cs = (length cs ≤ max_slots) × AreIds (ids fl cs)

  pub tid-frame :
      (s : MtState) (cs : List (Contact fl)) (n : ℕ) (k : Kernel)
      → s.next_tid ≡ pos n
      → 1 ≤ n
      → n + length cs ≤ 2147483647
      → SameFrom 0 s.slot_id k.tracking
      → (m : ℕ) × ((frame fl s cs).1.next_tid ≡ pos m) × (m ≤ n + length cs) × (1 ≤ m)
  unfolding frame
  tid-frame s cs n k t p b h =
      let lifted = lifts-Lifted fl s.slot_id cs 0 k h in
      let s1 : MtState = record s { slot_id = (lifts fl 0 s.slot_id cs).1 } in
      (place_all-Placed fl cs s1 n (feeds k (lifts fl 0 s.slot_id cs).0) t p b lifted.slots).tid

  pub count-frame : (s : MtState) (cs : List (Contact fl)) → (frame fl s cs).1.count ≡ length cs
  unfolding frame
  count-frame s cs = refl

  pub declared-frame :
      (s : MtState) (cs : List (Contact fl))
      → AreIds (ids fl cs)
      → Tracks fl cs s.slot_id (frame fl s cs).1.slot_id
      → active (frame fl s cs).1.slot_id ≡ 0
      → length cs ≡ 0
  unfolding ids present
  declared-frame s [] d v z = refl
  declared-frame s (c ∷ cs) d v z = absurd (
      active-held (frame fl s (c ∷ cs)).1.slot_id c.id
        (v.exact c.id d.0 ∙ ground (arith, eq_ℤ_iff c.id c.id)) d.0 z)
