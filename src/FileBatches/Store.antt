-- ===== src/FileBatches/Store.antt =====
-- The methods of Store of daemon/internal/filebatches/store.go. `now` is the time of the call, and
-- `permitted` says whether the guard of the call runs the effect or returns an error; without a
-- guard it is true.
use phonepad.Base.{
  Bool, Bytes, List, Option, [], bytes_eq, drop, eq_ℤ, false, get, get_elem?, if◌then◌else◌, inl,
  inr, leb, length, ltb, ltb_ℤ, negsuc, none, not, pos, put, remove, set, some, take, true, ℕ, ℤ,
  ◌++◌, ◌+◌, ◌-◌, ◌∷◌, ◌⊎◌,
}
use phonepad.FileBatches.Manifest.{
  BatchManifest, Error, FileSpec, Limits, capacity, conflict, corrupt, expired, incomplete, invalid,
  manifests_equal, not_found, refused, validate_hash, validate_id, validate_manifest,
}
use phonepad.FileBatches.Disk.{
  Published, Stage, Status, Store, cancelled, cleanup_expired, create_stage, destination_folder,
  destination_status, file_statuses_from_stage, is_cancelled, is_receiving, receiving_count,
  rename_published_files, stage_expired, stage_status,
}
use phonepad.TextOps.Hex.{hex_encode}

pub record Reply : Type 0 where
  pub status : Option Status
  pub error : Option Error

abbrev pub fails : Error → Reply
fails e = record { status = none; error = some e }

abbrev pub fails_with : Status → Error → Reply
fails_with s e = record { status = some s; error = some e }

abbrev pub succeeds : Status → Reply
succeeds s = record { status = some s; error = none }

unfoldable pub begin_new : Limits → Store → BatchManifest → ℕ → Bool → Store × Reply
begin_new l st m now permitted =
    let s = create_stage m now in
    if leb l.max_staging (receiving_count st.stages)
    then (st, fails capacity)
    else if leb l.max_total_staging (length st.stages)
    then (st, fails capacity)
    else if not permitted
    then (st, fails refused)
    else (record st { stages = put m.id s st.stages }, succeeds (stage_status s))

-- After the expired stages are gone.
unfoldable pub begin_clean : Limits → Store → BatchManifest → ℕ → Bool → Store × Reply
unfolding begin_new
begin_clean l st m now permitted = elim (get m.id st.destinations) [
  | some p ↦
      if not (manifests_equal m p.manifest)
      then (st, fails conflict)
      else (st, succeeds (destination_status p))
  | none ↦ elim (get m.id st.stages) [
    | some s ↦
        if not (manifests_equal m s.manifest)
        then (st, fails conflict)
        else (st, succeeds (stage_status s))
    | none ↦ begin_new l st m now permitted
  ]
]

unfoldable pub begin : Limits → Store → BatchManifest → ℕ → Bool → Store × Reply
unfolding begin_clean
begin l st m now permitted = elim (validate_manifest l m) [
  | some e ↦ (st, fails e)
  | none ↦ begin_clean l (record st { stages = cleanup_expired l now st.stages }) m now permitted
]

-- Status. The expiry of a stage removes it.
unfoldable pub status : Limits → Store → Bytes → ℕ → Store × Reply
status l st id now =
    if not (validate_id id) then (st, fails invalid) else elim (get id st.destinations) [
      | some p ↦ (st, succeeds (destination_status p))
      | none ↦ elim (get id st.stages) [
        | none ↦ (st, fails not_found)
        | some s ↦
            if stage_expired l now s
            then (record st { stages = remove id st.stages }, fails expired)
            else (st, succeeds (stage_status s))
      ]
    ]

-- The overlap must repeat what is there; the rest is written at the end.
abbrev pub overlap_of : Bytes → ℕ → Bytes → ℕ
overlap_of content offset bytes =
    if ltb (length content - offset) (length bytes) then length content - offset else length bytes

-- The stage after a chunk. `size` is the declared size of the file.
unfoldable pub merge_chunk : Bytes → ℤ → ℕ → Bytes → Bytes ⊎ Error
merge_chunk content size offset bytes =
    let overlap = overlap_of content offset bytes in
    if ltb_ℤ size (pos (length content))
    then inr corrupt
    else if ltb (length content) offset
    then inr invalid
    else if ltb_ℤ size (pos (offset + length bytes))
    then inr capacity
    else if not (bytes_eq (take overlap (drop offset content)) (take overlap bytes))
    then inr conflict
    else inl (content ++ drop overlap bytes)

abbrev pub write_payload : Stage → ℕ → Bytes → ℕ → Stage
write_payload s index content now = record s {
  payloads = set s.payloads index content;
  updated_at = now;
  stage_modified = now;
  state_modified = now;
  files = file_statuses_from_stage s.manifest (set s.payloads index content);
}

unfoldable pub write_merged : Store → Bytes → Stage → ℕ → ℕ → Bool → Bytes ⊎ Error → Store × Reply
write_merged st id s index now permitted (inr e) = (st, fails_with (stage_status s) e)
write_merged st id s index now permitted (inl content) =
    let s' = write_payload s index content now in
    if not permitted
    then (st, fails_with (stage_status s) refused)
    else (record st { stages = put id s' st.stages }, succeeds (stage_status s'))

unfoldable pub write_stage :
    Limits → Store → Bytes → Stage → ℕ → ℕ → Bytes → ℕ → Bool → Store × Reply
unfolding write_merged
write_stage l st id s index offset bytes now permitted =
    if stage_expired l now s
    then (record st { stages = remove id st.stages }, fails expired)
    else if is_cancelled s.state
    then (st, fails_with (stage_status s) conflict)
    else if not (is_receiving s.state)
    then (st, fails_with (stage_status s) conflict)
    else elim (get_elem? s.manifest.files index) [
      | none ↦ (st, fails_with (stage_status s) invalid)
      | some spec ↦ elim (get_elem? s.payloads index) [
        | none ↦ (st, fails_with (stage_status s) corrupt)
        | some content ↦
            write_merged st id s index now permitted (merge_chunk content spec.bytes offset bytes)
      ]
    ]

unfoldable pub write_known : Limits → Store → Bytes → ℕ → ℕ → Bytes → ℕ → Bool → Store × Reply
unfolding write_stage
write_known l st id index offset bytes now permitted = elim (get id st.stages) [
  | some s ↦ write_stage l st id s index offset bytes now permitted
  | none ↦ elim (get id st.destinations) [
    | some p ↦ (st, fails_with (destination_status p) conflict)
    | none ↦ (st, fails not_found)
  ]
]

unfoldable pub publish : Stage → Bytes → Published
publish s id = record {
  manifest = s.manifest;
  files = file_statuses_from_stage s.manifest s.payloads;
  folder = destination_folder id;
  contents = rename_published_files s.manifest s.payloads;
}

module _ (sum256 : Bytes → Bytes) where
  unfoldable pub write_chunk :
      Limits → Store → Bytes → ℤ → ℤ → Bytes → Bytes → ℕ → Bool → Store × Reply
  unfolding write_known
  write_chunk l st id (negsuc i) offset bytes sum now permitted = (st, fails invalid)
  write_chunk l st id (pos i) (negsuc o) bytes sum now permitted = (st, fails invalid)
  write_chunk l st id (pos i) (pos o) bytes sum now permitted =
      if not (validate_id id)
      then (st, fails invalid)
      else if ltb l.max_chunk_bytes (length bytes)
      then (st, fails capacity)
      else if not (validate_hash sum)
      then (st, fails invalid)
      else if not (bytes_eq (hex_encode (sum256 bytes)) sum)
      then (st, fails conflict)
      else write_known l st id i o bytes now permitted

  -- The first file that is not complete, or not what the manifest announces.
  unfoldable pub verify_files : List FileSpec → List Bytes → Option Error
  verify_files [] ps = none
  verify_files (spec ∷ specs) [] = some corrupt
  verify_files (spec ∷ specs) (p ∷ ps) =
      let rest = verify_files specs ps in
      if not (eq_ℤ (pos (length p)) spec.bytes)
      then some incomplete
      else if not (bytes_eq (hex_encode (sum256 p)) spec.sha256)
      then some conflict
      else rest

  unfoldable pub commit_stage : Limits → Store → Bytes → Stage → ℕ → Bool → Store × Reply × Bool
  commit_stage l st id s now permitted =
      if stage_expired l now s
      then (record st { stages = remove id st.stages }, fails expired, false)
      else if is_cancelled s.state
      then (st, fails_with (stage_status s) conflict, false)
      else if not (is_receiving s.state)
      then (st, fails corrupt, false)
      else elim (verify_files s.manifest.files s.payloads) [
        | some e ↦ (st, fails_with (stage_status s) e, false)
        | none ↦ if not permitted then (st, fails refused, false) else (
          record {
            stages = remove id st.stages;
            destinations = put id (publish s id) st.destinations;
          },
          succeeds (destination_status (publish s id)),
          true,
        )
      ]

  -- The Boolean says whether this call published the folder.
  unfoldable pub commit : Limits → Store → Bytes → ℕ → Bool → Store × Reply × Bool
  unfolding commit_stage
  commit l st id now permitted =
      if not (validate_id id) then (st, fails invalid, false) else elim (get id st.destinations) [
        | some p ↦ (st, succeeds (destination_status p), false)
        | none ↦ elim (get id st.stages) [
          | none ↦ (st, fails not_found, false)
          | some s ↦ commit_stage l st id s now permitted
        ]
      ]

-- The tombstone keeps the sizes received, and no payloads.
abbrev pub tombstone : Stage → ℕ → Stage
tombstone s now = record s {
  state = cancelled;
  updated_at = now;
  stage_modified = now;
  state_modified = now;
  files = file_statuses_from_stage s.manifest s.payloads;
  payloads = [];
}

unfoldable pub cancel_stage : Limits → Store → Bytes → Stage → ℕ → Store × Reply
cancel_stage l st id s now =
    if stage_expired l now s
    then (record st { stages = remove id st.stages }, fails expired)
    else if is_cancelled s.state
    then (st, succeeds (stage_status s))
    else if not (is_receiving s.state)
    then (st, fails_with (stage_status s) conflict)
    else (
      record st { stages = put id (tombstone s now) st.stages },
      succeeds (stage_status (tombstone s now)),
    )

unfoldable pub cancel : Limits → Store → Bytes → ℕ → Store × Reply
unfolding cancel_stage
cancel l st id now =
    if not (validate_id id) then (st, fails invalid) else elim (get id st.destinations) [
      | some p ↦ (st, fails_with (destination_status p) conflict)
      | none ↦ elim (get id st.stages) [
        | none ↦ (st, fails not_found)
        | some s ↦ cancel_stage l st id s now
      ]
    ]
