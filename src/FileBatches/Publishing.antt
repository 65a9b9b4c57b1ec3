-- ===== src/FileBatches/Publishing.antt =====
-- What each call does to the published folders.
use phonepad.Base.{
  Bool, Bool-cases, Bytes, List, Option-cases, arith, get, get_elem?, inl, inr, negsuc, none, pos,
  put, refl, ℕ, ℤ, ◌≡◌, ◌⊎◌,
}
use phonepad.FileBatches.Manifest.{BatchManifest, Error, Limits, validate_id}
use phonepad.FileBatches.History.{Call, asks, begins, cancels, commits, run_call, writes}
use phonepad.FileBatches.Disk.{Published, Stage, Store, is_cancelled, is_receiving, stage_expired}
use phonepad.FileBatches.Store.{
  begin, begin_clean, begin_new, cancel, cancel_stage, commit, commit_stage, merge_chunk, publish,
  status, verify_files, write_chunk, write_known, write_merged, write_stage,
}

destinations-begin :
    (l : Limits) (st : Store) (m : BatchManifest) (now : ℕ) (permitted : Bool)
    → (begin l st m now permitted).0.destinations ≡ st.destinations
unfolding begin begin_clean begin_new
destinations-begin l st m now permitted = ground arith

destinations-status :
    (l : Limits) (st : Store) (id : Bytes) (now : ℕ)
    → (status l st id now).0.destinations ≡ st.destinations
unfolding status
destinations-status l st id now = ground arith

destinations-cancel :
    (l : Limits) (st : Store) (id : Bytes) (now : ℕ)
    → (cancel l st id now).0.destinations ≡ st.destinations
unfolding cancel cancel_stage
destinations-cancel l st id now = ground arith

destinations-write_merged :
    (st : Store) (id : Bytes) (s : Stage) (i now : ℕ) (permitted : Bool) (r : Bytes ⊎ Error)
    → (write_merged st id s i now permitted r).0.destinations ≡ st.destinations
unfolding write_merged
destinations-write_merged st id s i now permitted (inl content) = ground arith
destinations-write_merged st id s i now permitted (inr e) = refl

destinations-write_stage :
    (l : Limits) (st : Store) (id : Bytes) (s : Stage) (i offset : ℕ) (bytes : Bytes) (now : ℕ)
    (permitted : Bool)
    → (write_stage l st id s i offset bytes now permitted).0.destinations ≡ st.destinations
unfolding write_stage
destinations-write_stage l st id s i offset bytes now permitted =
    elim (Option-cases (get_elem? s.manifest.files i)) [
      | inl a ↦ ground (arith, a)
      | inr (spec, a) ↦ elim (Option-cases (get_elem? s.payloads i)) [
        | inl b ↦ ground (arith, a, b)
        | inr (content, b) ↦ ground (
          arith,
          a,
          b,
          destinations-write_merged st id s i now permitted
              (merge_chunk content spec.bytes offset bytes),
        )
      ]
    ]

module _ (sum256 : Bytes → Bytes) where
  -- The destinations before and after a call: nothing happened, or a folder was added where there
  -- was none, out of a stage whose files passed the verification.
  abbrev pub Publishes : List (Bytes × Published) → List (Bytes × Published) → Type 0
  Publishes ds ds' =
      (ds' ≡ ds)
      ⊎ ((id : Bytes) × (s : Stage) × (get id ds ≡ none)
          × (verify_files sum256 s.manifest.files s.payloads ≡ none)
          × (ds' ≡ put id (publish s id) ds))

  commit_stage-Publishes :
      (l : Limits) (st : Store) (id : Bytes) (s : Stage) (now : ℕ) (permitted : Bool)
      → get id st.destinations ≡ none
      → Publishes st.destinations (commit_stage sum256 l st id s now permitted).0.destinations
  unfolding commit_stage
  commit_stage-Publishes l st id s now permitted e = elim (Bool-cases (stage_expired l now s)) [
    | inl a ↦ rw (a, commit_stage) (inl refl)
    | inr a ↦ elim (Bool-cases (is_cancelled s.state)) [
      | inl b ↦ rw (a, b, commit_stage) (inl refl)
      | inr b ↦ elim (Bool-cases (is_receiving s.state)) [
        | inr c ↦ rw (a, b, c, commit_stage) (inl refl)
        | inl c ↦ elim (Option-cases (verify_files sum256 s.manifest.files s.payloads)) [
          | inr (err, v) ↦ rw (a, b, c, v, commit_stage) (inl refl)
          | inl v ↦ elim (Bool-cases permitted) [
            | inl g ↦ rw (a, b, c, v, g, commit_stage) (inr (id, s, e, v, refl))
            | inr g ↦ rw (a, b, c, v, g, commit_stage) (inl refl)
          ]
        ]
      ]
    ]
  ]

  commit-Publishes :
      (l : Limits) (st : Store) (id : Bytes) (now : ℕ) (permitted : Bool)
      → Publishes st.destinations (commit sum256 l st id now permitted).0.destinations
  unfolding commit
  commit-Publishes l st id now permitted = elim (Bool-cases (validate_id id)) [
    | inr a ↦ rw (a, commit) (inl refl)
    | inl a ↦ elim (Option-cases (get id st.destinations)) [
      | inr (p, b) ↦ rw (a, b, commit) (inl refl)
      | inl b ↦ elim (Option-cases (get id st.stages)) [
        | inl c ↦ rw (a, b, c, commit) (inl refl)
        | inr (s, c) ↦ rw (a, b, c, commit) (commit_stage-Publishes l st id s now permitted b)
      ]
    ]
  ]

  destinations-write_chunk :
      (l : Limits) (st : Store) (id : Bytes) (i offset : ℤ) (bytes sum : Bytes) (now : ℕ)
      (permitted : Bool)
      → (write_chunk sum256 l st id i offset bytes sum now permitted).0.destinations
        ≡ st.destinations
  unfolding write_chunk write_known
  destinations-write_chunk l st id (negsuc i) offset bytes sum now permitted = refl
  destinations-write_chunk l st id (pos i) (negsuc o) bytes sum now permitted = refl
  destinations-write_chunk l st id (pos i) (pos o) bytes sum now permitted =
      elim (Option-cases (get id st.stages)) [
        | inl a ↦ ground (arith, a)
        | inr (s, a) ↦ ground (arith, a, destinations-write_stage l st id s i o bytes now permitted)
      ]

  pub run_call-Publishes :
      (st : Store) (c : Call) → Publishes st.destinations (run_call sum256 st c).destinations
  unfolding run_call
  run_call-Publishes st (begins l m now permitted) = inl (destinations-begin l st m now permitted)
  run_call-Publishes st (asks l id now) = inl (destinations-status l st id now)
  run_call-Publishes st (writes l id i offset bytes sum now permitted) =
      inl (destinations-write_chunk l st id i offset bytes sum now permitted)
  run_call-Publishes st (commits l id now permitted) = commit-Publishes l st id now permitted
  run_call-Publishes st (cancels l id now) = inl (destinations-cancel l st id now)
