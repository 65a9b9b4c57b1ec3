-- ===== src/FileBatches/Tests.antt =====
-- A batch of one file that arrives in two chunks, which overlap.
use phonepad.Base.{
  Bytes, List, [], ascii, bytes_eq, get, pos, put, refl, remove, some, true, ◌∷◌, ◌≡◌,
}
use phonepad.TextOps.Hex.{hex_encode}
use phonepad.FileBatches.Manifest.{
  BatchManifest, FileSpec, Limits, has_control, manifests_equal, specs_equal, validate_filename,
  validate_hash, validate_id, validate_manifest,
}
use phonepad.FileBatches.History.{
  Call, asks, begins, cancels, commits, new_store, run_calls, writes, run_call,
}
use phonepad.FileBatches.Published.{IsSound, new_store-IsSound, published_forever}
use phonepad.FileBatches.Capacity.{IsWithin, new_store-IsWithin}
use phonepad.FileBatches.Chunks.{Merges, merge_chunk-Merges}
use phonepad.FileBatches.Disk.{
  Published, cleanup_expired, create_stage, decimal, file_statuses_from_stage,
  initial_file_statuses, published_name, receiving_count, rename_from, rename_published_files,
  stage_expired, stage_status,
}
use phonepad.FileBatches.Store.{
  merge_chunk, begin, begin_clean, begin_new, cancel, cancel_stage, commit, commit_stage, publish,
  status, verify_files, write_chunk, write_known, write_merged, write_stage,
}

-- A digest for tests: every text has the same.
abbrev zero_digest : Bytes → Bytes
zero_digest s =
    0 ∷ 0 ∷ 0 ∷ 0 ∷ 0 ∷ 0 ∷ 0 ∷ 0 ∷ 0 ∷ 0 ∷ 0 ∷ 0 ∷ 0 ∷ 0 ∷ 0 ∷ 0 ∷ 0 ∷ 0 ∷ 0 ∷ 0 ∷ 0 ∷ 0 ∷ 0 ∷ 0
    ∷ 0 ∷ 0 ∷ 0 ∷ 0 ∷ 0 ∷ 0 ∷ 0 ∷ 0 ∷ []

abbrev zero_hash : Bytes
zero_hash = ascii "0000000000000000000000000000000000000000000000000000000000000000"

abbrev limits : Limits
limits = record {
  max_files = 20;
  max_total_bytes = 1000;
  max_chunk_bytes = 100;
  max_staging = 4;
  max_total_staging = 128;
  ttl = 86400;
}

abbrev batch_id : Bytes
batch_id = ascii "0123abcd-0000-4000-8000-000000000000"

abbrev notes : FileSpec
notes = record {
  name = ascii "notes.txt";
  type = ascii "text/plain";
  bytes = pos 5;
  sha256 = zero_hash;
}

abbrev batch : BatchManifest
batch = record { version = pos 2; id = batch_id; files = notes ∷ [] }

abbrev upload : List Call
upload =
    begins limits batch 10 true
    ∷ writes limits batch_id (pos 0) (pos 0) (ascii "hel") zero_hash 11 true
    ∷ writes limits batch_id (pos 0) (pos 2) (ascii "llo") zero_hash 12 true
    ∷ asks limits batch_id 13
    ∷ commits limits batch_id 14 true
    ∷ cancels limits batch_id 15
    ∷ []

abbrev folder : Published
folder = record {
  manifest = batch;
  files =
      record {
        index = 0;
        name = ascii "1-notes.txt";
        type = ascii "text/plain";
        bytes = pos 5;
        received_bytes = 5;
        sha256 = zero_hash;
      }
      ∷ [];
  folder = ascii "batch-0123abcd-0000-4000-8000-000000000000";
  contents = (ascii "1-notes.txt", ascii "hello") ∷ [];
}

uploaded : get batch_id (run_calls zero_digest new_store upload).destinations ≡ some folder
unfolding get put remove bytes_eq run_calls run_call cancel cancel_stage commit commit_stage status
    write_chunk write_known write_stage write_merged merge_chunk begin begin_clean begin_new
    validate_id validate_hash validate_manifest validate_filename has_control cleanup_expired
    receiving_count create_stage decimal file_statuses_from_stage initial_file_statuses
    published_name rename_from rename_published_files stage_expired stage_status manifests_equal
    specs_equal publish verify_files hex_encode
uploaded = refl

merge_chunk-Merges_example : Merges (ascii "hel") (pos 5) 2 (ascii "llo") (ascii "hello")
unfolding merge_chunk bytes_eq
merge_chunk-Merges_example =
    merge_chunk-Merges (ascii "hel") (pos 5) 2 (ascii "llo") (ascii "hello") refl

published_forever_example :
    get batch_id
      (run_calls zero_digest (run_calls zero_digest new_store upload) upload).destinations
    ≡ some folder
published_forever_example =
    published_forever zero_digest (run_calls zero_digest new_store upload) batch_id folder upload
      uploaded

new_store-IsSound_example :
    IsSound zero_digest (run_calls zero_digest new_store upload).destinations
new_store-IsSound_example = new_store-IsSound zero_digest upload

new_store-IsWithin_example : IsWithin limits (run_calls zero_digest new_store upload).stages
new_store-IsWithin_example =
    new_store-IsWithin zero_digest limits upload (refl, (refl, (refl, (refl, (refl, (refl, tt))))))
