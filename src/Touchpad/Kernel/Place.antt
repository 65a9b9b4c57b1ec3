-- ===== src/Touchpad/Kernel/Place.antt =====
-- The events of the live contacts, as the kernel takes them.
use phonepad.Base.{
  Bool-cases, List, Option-cases, [], ap, arith, eq_ℤ_iff, false, inl, inr, length, none, pos, refl,
  set, some, true, ℕ, ℤ, ◌+◌, ◌<◌, ◌∙◌, ◌∷◌, ◌≡◌, ◌≤◌, ◌⊎◌,
}
use phonepad.Floats.{FloatOps}
use phonepad.Touchpad.Events.{
  MtState, Contact, free, is_free, slot_of, assign, placed, place, place_all,
}
use phonepad.Touchpad.Kernel.{Kernel, feeds, feeds-append, SameFrom, SameFrom-set}

not_free :
    (ss : List ℤ) (id : ℤ) (i : ℕ)
    → slot_of id ss ≡ none
    → slot_of free ss ≡ some i
    → is_free id ≡ false
not_free ss id i lacks found = elim (Bool-cases (is_free id)) [
  | inl same ↦ let q : (id ≡ free) = (eq_ℤ_iff id free).0 same in cc (ap (λ j. slot_of j ss) q)
  | inr other ↦ other
]

-- The three ways that `assign` ends: a slot held before, a vacant slot, and none.
assign_ends :
    (ss : List ℤ) (id : ℤ)
    → ((i : ℕ) × (assign ss id ≡ (some (i, false), ss)))
      ⊎ ((i : ℕ) × (is_free id ≡ false) × (assign ss id ≡ (some (i, true), set ss i id)))
      ⊎ (assign ss id ≡ (none, ss))
unfolding assign
assign_ends ss id = elim (Option-cases (slot_of id ss)) [
  | inr (i, e) ↦ inl (i, rw (e, assign))
  | inl lacks ↦ elim (Option-cases (slot_of free ss)) [
    | inl full ↦ inr (inr (rw (lacks, assign) (rw (full, assign))))
    | inr (i, e) ↦ inr (inl (i, not_free ss id i lacks e, rw (lacks, assign) (rw (e, assign))))
  ]
]

module _ (fl : FloatOps) where
  -- `n` bounds the next tracking identifier, which has not wrapped.
  pub record Placed (n : ℕ) (s : MtState) (k k' : Kernel) : Type 0 where
    pub slots : SameFrom 0 s.slot_id k'.tracking
    pub keys : k'.keys ≡ k.keys
    pub tid : (m : ℕ) × (s.next_tid ≡ pos m) × (m ≤ n) × (1 ≤ m)

  placed_none :
      (s : MtState) (c : Contact fl) (n : ℕ) (k : Kernel) (ss : List ℤ)
      → s.next_tid ≡ pos n
      → 1 ≤ n
      → SameFrom 0 s.slot_id k.tracking
      → Placed (n + 1) (placed fl s c none ss).1 k (feeds k (placed fl s c none ss).0)
  unfolding placed feeds
  placed_none s c n k ss t p h = record { slots = h; keys = refl; tid = (n, t, omega arith, p) }

  placed_old :
      (s : MtState) (c : Contact fl) (n i : ℕ) (k : Kernel)
      → s.next_tid ≡ pos n
      → 1 ≤ n
      → SameFrom 0 s.slot_id k.tracking
      → let r = placed fl s c (some (i, false)) s.slot_id in Placed (n + 1) r.1 k (feeds k r.0)
  unfolding placed feeds
  placed_old s c n i k t p h = record { slots = h; keys = refl; tid = (n, t, omega arith, p) }

  placed_new :
      (s : MtState) (c : Contact fl) (n i : ℕ) (k : Kernel)
      → s.next_tid ≡ pos n
      → 1 ≤ n
      → n < 2147483647
      → is_free c.id ≡ false
      → SameFrom 0 s.slot_id k.tracking
      → let r = placed fl s c (some (i, true)) (set s.slot_id i c.id) in
        Placed (n + 1) r.1 k (feeds k r.0)
  unfolding placed feeds
  placed_new s c n i k t p b f h = record {
    slots = SameFrom-set 0 i i s.slot_id k.tracking c.id s.next_tid (omega arith) (ground arith) h;
    keys = refl;
    tid = (n + 1, ground arith, omega arith, omega arith);
  }

  place-Placed :
      (s : MtState) (c : Contact fl) (n : ℕ) (k : Kernel)
      → s.next_tid ≡ pos n
      → 1 ≤ n
      → n < 2147483647
      → SameFrom 0 s.slot_id k.tracking
      → Placed (n + 1) (place fl s c).1 k (feeds k (place fl s c).0)
  place-Placed s c n k t p b h =
      unfold place in
      elim (assign_ends s.slot_id c.id) [
        | inl (i, e) ↦ rw e (placed_old s c n i k t p h)
        | inr (inl (i, f, e)) ↦ rw e (placed_new s c n i k t p b f h)
        | inr (inr e) ↦ rw e (placed_none s c n k s.slot_id t p h)
      ]

  -- A kernel that agrees before the contacts agrees after them, as long as the tracking identifiers
  -- do not wrap.
  pub place_all-Placed :
      (cs : List (Contact fl)) (s : MtState) (n : ℕ) (k : Kernel)
      → s.next_tid ≡ pos n
      → 1 ≤ n
      → n + length cs ≤ 2147483647
      → SameFrom 0 s.slot_id k.tracking
      → Placed (n + length cs) (place_all fl s cs).1 k (feeds k (place_all fl s cs).0)
  unfolding place_all
  place_all-Placed [] s n k t p b h =
      unfold feeds in record { slots = h; keys = refl; tid = (n, t, omega arith, p) }
  place_all-Placed (c ∷ cs) s n k t p b h =
      let first = place-Placed s c n k t p (omega arith) h in
      let (m, e, below, above) = first.tid in
      let rest =
        place_all-Placed cs (place fl s c).1 m (feeds k (place fl s c).0) e above (omega arith)
          first.slots in
      rw (feeds-append (place fl s c).0 (place_all fl (place fl s c).1 cs).0 k) (record {
        slots = rest.slots;
        keys = rest.keys ∙ first.keys;
        tid = (rest.tid.0, rest.tid.1, omega arith, rest.tid.3);
      })
