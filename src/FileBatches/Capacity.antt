-- ===== src/FileBatches/Capacity.antt =====
-- How many stages there are.
use phonepad.Base.{
  All, Bool, Bytes, List, Option-cases, [], arith, get, get_elem?, inl, inr, length, length-put,
  length-put_known, negsuc, pos, put, remove, some, suc, true, ℕ, ℤ, ◌∷◌, ◌≡◌, ◌≤◌, ◌⊎◌,
}
use phonepad.FileBatches.Manifest.{BatchManifest, Error, Limits}
use phonepad.FileBatches.History.{
  Call, asks, begins, cancels, commits, new_store, run_call, run_calls, writes,
}
use phonepad.FileBatches.Disk.{
  Stage, Store, cleanup_expired, create_stage, is_receiving, receiving_count,
}
use phonepad.FileBatches.Store.{
  begin, begin_clean, begin_new, cancel, cancel_stage, commit, commit_stage, merge_chunk, status,
  tombstone, write_chunk, write_known, write_merged, write_payload, write_stage,
}

abbrev pub IsWithin : Limits → List (Bytes × Stage) → Type 0
IsWithin l stages = (receiving_count stages ≤ l.max_staging) × (length stages ≤ l.max_total_staging)

count-put_known :
    (k : Bytes) (s s' : Stage) (stages : List (Bytes × Stage))
    → get k stages ≡ some s
    → (is_receiving s'.state ≡ true → is_receiving s.state ≡ true)
    → receiving_count (put k s' stages) ≤ receiving_count stages
unfolding get put receiving_count
count-put_known k s s' [] h r = ground arith
count-put_known k s s' ((key, t) ∷ rest) h r = ground (arith, count-put_known k s s' rest)

count-put :
    (k : Bytes) (s : Stage) (stages : List (Bytes × Stage))
    → receiving_count (put k s stages) ≤ suc (receiving_count stages)
unfolding put receiving_count
count-put k s [] = ground arith
count-put k s ((key, t) ∷ rest) = ground (arith, count-put k s rest)

remove_fewer :
    (k : Bytes) (stages : List (Bytes × Stage))
    → (receiving_count (remove k stages) ≤ receiving_count stages)
      × (length (remove k stages) ≤ length stages)
unfolding remove receiving_count
remove_fewer k [] = ground arith
remove_fewer k ((key, t) ∷ rest) = ground (arith, remove_fewer k rest)

cleanup_fewer :
    (l : Limits) (now : ℕ) (stages : List (Bytes × Stage))
    → (receiving_count (cleanup_expired l now stages) ≤ receiving_count stages)
      × (length (cleanup_expired l now stages) ≤ length stages)
unfolding cleanup_expired receiving_count
cleanup_fewer l now [] = ground arith
cleanup_fewer l now ((key, t) ∷ rest) = ground (arith, cleanup_fewer l now rest)

begin_new-IsWithin :
    (l : Limits) (st : Store) (m : BatchManifest) (now : ℕ) (permitted : Bool)
    → IsWithin l st.stages
    → IsWithin l (begin_new l st m now permitted).0.stages
unfolding begin_new
begin_new-IsWithin l st m now permitted h = ground (
  arith,
  count-put m.id (create_stage m now) st.stages,
  length-put m.id (create_stage m now) st.stages,
)

begin_clean-IsWithin :
    (l : Limits) (st : Store) (m : BatchManifest) (now : ℕ) (permitted : Bool)
    → IsWithin l st.stages
    → IsWithin l (begin_clean l st m now permitted).0.stages
unfolding begin_clean
begin_clean-IsWithin l st m now permitted h =
    ground (arith, begin_new-IsWithin l st m now permitted h)

begin-IsWithin :
    (l : Limits) (st : Store) (m : BatchManifest) (now : ℕ) (permitted : Bool)
    → IsWithin l st.stages
    → IsWithin l (begin l st m now permitted).0.stages
unfolding begin
begin-IsWithin l st m now permitted h =
    let clean = record st { stages = cleanup_expired l now st.stages } in
    ground (arith, begin_clean-IsWithin l clean m now permitted, cleanup_fewer l now st.stages)

status-IsWithin :
    (l : Limits) (st : Store) (id : Bytes) (now : ℕ)
    → IsWithin l st.stages
    → IsWithin l (status l st id now).0.stages
unfolding status
status-IsWithin l st id now h = ground (arith, remove_fewer id st.stages)

cancel_stage-IsWithin :
    (l : Limits) (st : Store) (id : Bytes) (s : Stage) (now : ℕ)
    → get id st.stages ≡ some s
    → IsWithin l st.stages
    → IsWithin l (cancel_stage l st id s now).0.stages
unfolding cancel_stage
cancel_stage-IsWithin l st id s now e h = ground (
  arith,
  remove_fewer id st.stages,
  count-put_known id s (tombstone s now) st.stages e,
  length-put_known id (tombstone s now) s st.stages e,
)

cancel-IsWithin :
    (l : Limits) (st : Store) (id : Bytes) (now : ℕ)
    → IsWithin l st.stages
    → IsWithin l (cancel l st id now).0.stages
unfolding cancel
cancel-IsWithin l st id now h = elim (Option-cases (get id st.stages)) [
  | inl e ↦ ground (arith, e)
  | inr (s, e) ↦ ground (arith, e, cancel_stage-IsWithin l st id s now e h)
]

write_merged-IsWithin :
    (l : Limits) (st : Store) (id : Bytes) (s : Stage) (i now : ℕ) (permitted : Bool)
    (r : Bytes ⊎ Error)
    → get id st.stages ≡ some s
    → IsWithin l st.stages
    → IsWithin l (write_merged st id s i now permitted r).0.stages
unfolding write_merged
write_merged-IsWithin l st id s i now permitted (inl content) e h = ground (
  arith,
  count-put_known id s (write_payload s i content now) st.stages e,
  length-put_known id (write_payload s i content now) s st.stages e,
)
write_merged-IsWithin l st id s i now permitted (inr err) e h = h

write_stage-IsWithin :
    (l : Limits) (st : Store) (id : Bytes) (s : Stage) (i offset : ℕ) (bytes : Bytes) (now : ℕ)
    (permitted : Bool)
    → get id st.stages ≡ some s
    → IsWithin l st.stages
    → IsWithin l (write_stage l st id s i offset bytes now permitted).0.stages
unfolding write_stage
write_stage-IsWithin l st id s i offset bytes now permitted e h =
    elim (Option-cases (get_elem? s.manifest.files i)) [
      | inl a ↦ ground (arith, a, remove_fewer id st.stages)
      | inr (spec, a) ↦ elim (Option-cases (get_elem? s.payloads i)) [
        | inl b ↦ ground (arith, a, b, remove_fewer id st.stages)
        | inr (content, b) ↦ ground (
          arith,
          a,
          b,
          remove_fewer id st.stages,
          write_merged-IsWithin l st id s i now permitted
              (merge_chunk content spec.bytes offset bytes) e h,
        )
      ]
    ]

-- A call under the limits `l`.
abbrev pub IsUnder : Limits → Call → Type 0
IsUnder l (begins k m now permitted) = k ≡ l
IsUnder l (asks k id now) = k ≡ l
IsUnder l (writes k id i offset bytes sum now permitted) = k ≡ l
IsUnder l (commits k id now permitted) = k ≡ l
IsUnder l (cancels k id now) = k ≡ l

module _ (sum256 : Bytes → Bytes) where
  write_chunk-IsWithin :
      (l : Limits) (st : Store) (id : Bytes) (i offset : ℤ) (bytes sum : Bytes) (now : ℕ)
      (permitted : Bool)
      → IsWithin l st.stages
      → IsWithin l (write_chunk sum256 l st id i offset bytes sum now permitted).0.stages
  unfolding write_chunk write_known
  write_chunk-IsWithin l st id (negsuc i) offset bytes sum now permitted h = h
  write_chunk-IsWithin l st id (pos i) (negsuc o) bytes sum now permitted h = h
  write_chunk-IsWithin l st id (pos i) (pos o) bytes sum now permitted h =
      elim (Option-cases (get id st.stages)) [
        | inl a ↦ ground (arith, a)
        | inr (s, a) ↦ ground (arith, a, write_stage-IsWithin l st id s i o bytes now permitted a h)
      ]

  commit-IsWithin :
      (l : Limits) (st : Store) (id : Bytes) (now : ℕ) (permitted : Bool)
      → IsWithin l st.stages
      → IsWithin l (commit sum256 l st id now permitted).0.stages
  unfolding commit commit_stage
  commit-IsWithin l st id now permitted h = ground (arith, remove_fewer id st.stages)

  run_call-IsWithin :
      (l : Limits) (st : Store) (c : Call)
      → IsUnder l c
      → IsWithin l st.stages
      → IsWithin l (run_call sum256 st c).stages
  unfolding run_call
  run_call-IsWithin l st (begins k m now permitted) u h =
      rw u (begin-IsWithin l st m now permitted h)
  run_call-IsWithin l st (asks k id now) u h = rw u (status-IsWithin l st id now h)
  run_call-IsWithin l st (writes k id i offset bytes sum now permitted) u h =
      rw u (write_chunk-IsWithin l st id i offset bytes sum now permitted h)
  run_call-IsWithin l st (commits k id now permitted) u h =
      rw u (commit-IsWithin l st id now permitted h)
  run_call-IsWithin l st (cancels k id now) u h = rw u (cancel-IsWithin l st id now h)

  run_calls-IsWithin :
      (l : Limits) (st : Store) (cs : List Call)
      → All (IsUnder l) cs
      → IsWithin l st.stages
      → IsWithin l (run_calls sum256 st cs).stages
  unfolding run_calls
  run_calls-IsWithin l st [] u h = h
  run_calls-IsWithin l st (c ∷ cs) u h =
      run_calls-IsWithin l (run_call sum256 st c) cs u.1 (run_call-IsWithin l st c u.0 h)

  -- Whatever calls a new store gets under the same limits, there are never more stages receiving
  -- files, nor more stages in all, than the limits allow.
  pub new_store-IsWithin :
      (l : Limits) (cs : List Call)
      → All (IsUnder l) cs
      → IsWithin l (run_calls sum256 new_store cs).stages
  unfolding receiving_count
  new_store-IsWithin l cs u = run_calls-IsWithin l new_store cs u (ground arith)
