-- ===== src/TextOps/Transfer/Retry.antt =====
-- Retries of a chunk.
use phonepad.Base.{
  ==_iff, Bytes, List, Option-cases, [], arith, bytes_eq_iff, bytes_eq_refl, get_elem?,
  get_elem?-append_end, if◌then◌else◌, inl, inr, length, ltb, negsuc, none, pos, some, suc, true,
  zero, ℕ, ◌++◌, ◌<◌, ◌==◌, ◌||◌, ◌∙◌, ◌∷◌, ◌≡◌, ◌≢◌, ◌≤◌, ◌⊎◌,
}
use phonepad.TextOps.Manifest.{max_chunks, max_chunk_bytes}
use phonepad.TextOps.Transfer.{
  TextTransfer, Chunk, conflict, invalid, receipt, same_chunk, append_next, append_at, append,
  commit, claim, finish, cancel, retire_transfer,
}
use phonepad.TextOps.Transfer.History.{
  Call, appends, commits, claims, cancels, retires, finishes, step, run,
}

get_elem?-append {ℓ} :
    {A : Type ℓ} (xs : List A) (x : A) (i : ℕ) (a : A)
    → get_elem? xs i ≡ some a
    → get_elem? (xs ++ x ∷ []) i ≡ some a
get_elem?-append [] x i a h = ground arith
get_elem?-append (y ∷ xs) x zero a h = h
get_elem?-append (y ∷ xs) x (suc i) a h = get_elem?-append xs x i a h

module _ (sum256 : Bytes → Bytes) where
  -- No call forgets or replaces a chunk.
  step_keeps :
      (t : TextTransfer) (c : Call) (i : ℕ) (old : Chunk)
      → get_elem? t.chunks i ≡ some old
      → get_elem? (step sum256 t c).0.chunks i ≡ some old
  unfolding step append append_at append_next commit claim finish cancel retire_transfer
  step_keeps t (appends (negsuc j) bytes) i old h = h
  step_keeps t (appends (pos j) bytes) i old h = ground (
    arith,
    get_elem?-append t.chunks (record { size = length bytes; digest = sum256 bytes }) i old,
  )
  step_keeps t commits i old h = ground arith
  step_keeps t claims i old h = ground arith
  step_keeps t cancels i old h = ground arith
  step_keeps t retires i old h = ground arith
  step_keeps t (finishes s) i old h = ground arith

  run_keeps :
      (t : TextTransfer) (cs : List Call) (i : ℕ) (old : Chunk)
      → get_elem? t.chunks i ≡ some old
      → get_elem? (run sum256 t cs).chunks i ≡ some old
  unfolding run
  run_keeps t [] i old h = h
  run_keeps t (c ∷ cs) i old h = run_keeps (step sum256 t c).0 cs i old (step_keeps t c i old h)

  abbrev chunk_of : Bytes → Chunk
  chunk_of bytes = record { size = length bytes; digest = sum256 bytes }

  chunk_eq :
      (old : Chunk) (bytes : Bytes) → same_chunk sum256 old bytes ≡ true → old ≡ chunk_of bytes
  chunk_eq old bytes h = ground (arith, bytes_eq_iff old.digest (sum256 bytes))

  -- An accepted chunk is on record.
  append_records :
      (t : TextTransfer) (i : ℕ) (bytes : Bytes)
      → (append sum256 t (pos i) bytes).2 ≡ none
      → (get_elem? (append sum256 t (pos i) bytes).0.chunks i ≡ some (chunk_of bytes))
        × (i < max_chunks)
        × (0 < length bytes)
        × (length bytes ≤ max_chunk_bytes)
  unfolding append append_at append_next
  append_records t i bytes h = elim (Option-cases (get_elem? t.chunks i)) [
    | inl e ↦ ground (arith, get_elem?-append_end t.chunks (chunk_of bytes))
    | inr (old, e) ↦ ground (arith, chunk_eq old bytes)
  ]

  -- What a later append at an index on record answers: nothing changes, and the answer turns on
  -- the size and the digest alone.
  append_recorded :
      (t : TextTransfer) (i : ℕ) (old : Chunk) (bytes : Bytes)
      → get_elem? t.chunks i ≡ some old
      → i < max_chunks
      → append sum256 t (pos i) bytes ≡ (
        t,
        receipt t,
        (if length bytes == 0 || ltb max_chunk_bytes (length bytes)
            then some invalid
            else if same_chunk sum256 old bytes
            then none
            else some conflict),
      )
  unfolding append append_at
  append_recorded t i old bytes h a = ground arith

  -- Once a chunk is accepted, sending it again is harmless, whatever happened to the transfer in
  -- between: the retry is answered without an error, with the current receipt, and changes nothing.
  pub append_retry :
      (t : TextTransfer) (i : ℕ) (bytes : Bytes) (cs : List Call)
      → (append sum256 t (pos i) bytes).2 ≡ none
      → let later = run sum256 (append sum256 t (pos i) bytes).0 cs in
        append sum256 later (pos i) bytes ≡ (later, receipt later, none)
  append_retry t i bytes cs h =
      let (on_record, a, b, c) = append_records t i bytes h in
      let later = run sum256 (append sum256 t (pos i) bytes).0 cs in
      append_recorded later i (chunk_of bytes) bytes (run_keeps _ cs i (chunk_of bytes) on_record) a
      ∙ ground (arith, b, c, ==_iff (length bytes) (length bytes), bytes_eq_refl (sum256 bytes))

  -- A chunk of another size or digest at an accepted index is refused at any later time and changes
  -- nothing: as invalid if it is empty or longer than a chunk may be, as a conflict otherwise.
  pub append_conflict :
      (t : TextTransfer) (i : ℕ) (bytes other : Bytes) (cs : List Call)
      → (append sum256 t (pos i) bytes).2 ≡ none
      → (length other ≢ length bytes) ⊎ (sum256 other ≢ sum256 bytes)
      → let later = run sum256 (append sum256 t (pos i) bytes).0 cs in
        append sum256 later (pos i) other ≡ (
          later,
          receipt later,
          (if length other == 0 || ltb max_chunk_bytes (length other)
              then some invalid
              else some conflict),
        )
  append_conflict t i bytes other cs h differ =
      let (on_record, a, _, _) = append_records t i bytes h in
      let later = run sum256 (append sum256 t (pos i) bytes).0 cs in
      append_recorded later i (chunk_of bytes) other (run_keeps _ cs i (chunk_of bytes) on_record) a
      ∙ ground (arith, bytes_eq_iff (sum256 bytes) (sum256 other))
