-- ===== src/Session/Permits.antt =====
-- A permit holds until the next change of the permissions or the connection.
use phonepad.Base.{
  Bool, Bool-cases, Bytes, List, Option, [], arith, false, if◌then◌else◌, inl, inr, none, not, refl,
  some, suc, true, ℕ, ◌%◌, ◌&&◌, ◌+◌, ◌<◌, ◌==◌, ◌^◌, ◌||◌, ◌∷◌, ◌≡◌, ◌≢◌, ◌⊎◌,
}
use phonepad.Session.State.{
  Change, ServerState, change, clear_current, connects, disconnects, is_some, next_uint64, permits,
  same_connection, set_current, set_permissions, shutdown_resources, shuts_down, change_all,
  MutationPermit, capture_mutation_permit, holds, no_permission, run_lifecycle_mutation,
  run_permitted_mutation,
}
use phonepad.Session.Permissions.{is_granted, Permissions, Scope}

abbrev pub takes_effect : ServerState → Change → Bool
takes_effect s (permits value now random fails) = is_granted value.view
takes_effect s (connects c protocol epoch now random geometry_fails reset_fails) =
    not (not (is_some epoch) && protocol == 2 || s.lifecycle_closing || geometry_fails)
takes_effect s (disconnects c gen now fails) = same_connection s.current c && s.gen == gen
takes_effect s (shuts_down now) = true

-- How many of the changes are not refused.
unfoldable pub effective : ServerState → List Change → ℕ
effective s [] = 0
effective s (c ∷ cs) = let n = effective (change s c) cs in if takes_effect s c then suc n else n

-- The counters after a change that is refused, or not.
Counted : Bool → ServerState → ServerState → Type 0
Counted false s s' = (s'.permission_revision ≡ s.permission_revision) × (s'.gen ≡ s.gen)
Counted true s s' =
    ((s'.permission_revision ≡ next_uint64 s.permission_revision) × (s'.gen ≡ s.gen))
    ⊎ ((s'.permission_revision ≡ s.permission_revision) × (s'.gen ≡ next_uint64 s.gen))

permits-Counted :
    (s : ServerState) (value : Permissions) (now : ℕ) (random : Option Bytes) (fails : Bool)
    → Counted (is_granted value.view) s (set_permissions s value now random fails)
unfolding set_permissions Counted
permits-Counted s value now random fails = elim (Bool-cases (is_granted value.view)) [
  | inr e ↦ rw (e, set_permissions) (refl, refl)
  | inl e ↦ rw (e, set_permissions) (inl (ground arith, ground arith))
]

connects-Counted :
    (s : ServerState) (c protocol : ℕ) (epoch : Option Bytes) (now : ℕ) (random : Option Bytes)
    (geometry_fails reset_fails : Bool)
    → let fails = not (is_some epoch) && protocol == 2 || s.lifecycle_closing || geometry_fails in
      Counted (not fails) s (set_current s c protocol epoch now random geometry_fails reset_fails)
unfolding set_current Counted
connects-Counted s c protocol epoch now random geometry_fails reset_fails =
    elim (Bool-cases
      (not (is_some epoch) && protocol == 2 || s.lifecycle_closing || geometry_fails)) [
        | inl e ↦ rw (e, set_current) (refl, refl)
        | inr e ↦ rw (e, set_current) (inr (refl, refl))
      ]

change-Counted : (s : ServerState) (c : Change) → Counted (takes_effect s c) s (change s c)
unfolding change Counted clear_current shutdown_resources
change-Counted s (permits value now random fails) = permits-Counted s value now random fails
change-Counted s (connects c protocol epoch now random geometry_fails reset_fails) =
    connects-Counted s c protocol epoch now random geometry_fails reset_fails
change-Counted s (disconnects c gen now fails) =
    elim (Bool-cases (same_connection s.current c && s.gen == gen)) [
      | inl e ↦ rw (e, clear_current) (inr (refl, refl))
      | inr e ↦ rw (e, clear_current) (refl, refl)
    ]
change-Counted s (shuts_down now) = inr (refl, refl)

-- The counters after some changes: `k` steps of the one and `j` of the other.
record Counts (s s' : ServerState) (n : ℕ) : Type 0 where
  k : ℕ
  j : ℕ
  revisions : s'.permission_revision ≡ (s.permission_revision + k) % 2 ^ 64
  generations : s'.gen ≡ (s.gen + j) % 2 ^ 64
  total : k + j ≡ n

-- The two counters are uint64 values.
pub record IsCounting (s : ServerState) : Type 0 where
  pub revision_fits : s.permission_revision < 2 ^ 64
  pub generation_fits : s.gen < 2 ^ 64

Counts-none : (s : ServerState) → IsCounting s → Counts s s 0
Counts-none s f = record {
  k = 0;
  j = 0;
  revisions = omega (arith, f.revision_fits);
  generations = omega (arith, f.generation_fits);
  total = refl;
}

Counts-more :
    (s s' s'' : ServerState) (b : Bool) (n : ℕ)
    → Counted b s s'
    → Counts s' s'' n
    → Counts s s'' (if b then suc n else n)
unfolding Counted
Counts-more s s' s'' false n (r, g) c = record {
  k = c.k;
  j = c.j;
  revisions = omega (arith, r, c.revisions);
  generations = omega (arith, g, c.generations);
  total = c.total;
}
Counts-more s s' s'' true n (inl (r, g)) c = record {
  k = suc c.k;
  j = c.j;
  revisions = omega (arith, r, c.revisions);
  generations = omega (arith, g, c.generations);
  total = omega (arith, c.total);
}
Counts-more s s' s'' true n (inr (r, g)) c = record {
  k = c.k;
  j = suc c.j;
  revisions = omega (arith, r, c.revisions);
  generations = omega (arith, g, c.generations);
  total = omega (arith, c.total);
}

Counted-IsCounting : (s s' : ServerState) (b : Bool) → Counted b s s' → IsCounting s → IsCounting s'
unfolding Counted
Counted-IsCounting s s' false (r, g) f = record {
  revision_fits = omega (arith, r, f.revision_fits);
  generation_fits = omega (arith, g, f.generation_fits);
}
Counted-IsCounting s s' true (inl (r, g)) f = record {
  revision_fits = omega (arith, r, f.revision_fits);
  generation_fits = omega (arith, g, f.generation_fits);
}
Counted-IsCounting s s' true (inr (r, g)) f = record {
  revision_fits = omega (arith, r, f.revision_fits);
  generation_fits = omega (arith, g, f.generation_fits);
}

change_all-Counts :
    (s : ServerState) (cs : List Change)
    → IsCounting s
    → Counts s (change_all s cs) (effective s cs)
unfolding change_all effective
change_all-Counts s [] f = Counts-none s f
change_all-Counts s (c ∷ cs) f =
    Counts-more s (change s c) _ (takes_effect s c) _ (change-Counted s c) (
      change_all-Counts (change s c) cs
        (Counted-IsCounting s (change s c) (takes_effect s c) (change-Counted s c) f))

capture-counters :
    (s : ServerState) (scope : Scope) (p : MutationPermit)
    → capture_mutation_permit s scope ≡ some p
    → (p.revision ≡ s.permission_revision) × (p.generation ≡ s.gen)
unfolding capture_mutation_permit
capture-counters s scope p h = ground arith

holds-counters :
    (s : ServerState) (p : MutationPermit)
    → holds s p ≡ true
    → (p.revision ≡ s.permission_revision) × (p.generation ≡ s.gen)
unfolding holds
holds-counters s p h = ground arith

lapsed :
    (s s' : ServerState) (p : MutationPermit) (n : ℕ)
    → IsCounting s
    → (p.revision ≡ s.permission_revision) × (p.generation ≡ s.gen)
    → Counts s s' n
    → 0 < n
    → n < 2 ^ 64
    → holds s' p ≡ false
lapsed s s' p n f (r, g) c some_change few = elim (Bool-cases (holds s' p)) [
  | inr e ↦ e
  | inl e ↦
      let (r', g') = holds-counters s' p e in
      absurd (
        omega (
          arith, r, g, r', g', c.revisions, c.generations, c.total, f.revision_fits,
          f.generation_fits,
        ))
]

-- A permit lapses with the first change of the permissions or the connection that is not refused,
-- and for as long as there are fewer than 2^64 of them: the effect that it was captured for does
-- not run.
pub capture_lapses :
    (s : ServerState) (scope : Scope) (p : MutationPermit) (cs : List Change)
    → IsCounting s
    → capture_mutation_permit s scope ≡ some p
    → 0 < effective s cs
    → effective s cs < 2 ^ 64
    → (run_permitted_mutation (change_all s cs) p ≡ some no_permission)
      × (run_lifecycle_mutation (change_all s cs) p ≢ none)
unfolding run_permitted_mutation run_lifecycle_mutation
capture_lapses s scope p cs f h some_change few =
    let e =
      lapsed s (change_all s cs) p _ f (capture-counters s scope p h) (change_all-Counts s cs f)
        some_change few in
    rw e (refl, ground arith)
