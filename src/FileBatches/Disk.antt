-- ===== src/FileBatches/Disk.antt =====
-- What the store keeps on the disk, and statuses, of daemon/internal/filebatches/disk.go and
-- validate.go.
use phonepad.Base.{
  Bool, Bytes, List, [], ascii, false, if◌then◌else◌, leb, length, ltb, suc, true, zero, ℕ, ℤ, ◌%◌,
  ◌++◌, ◌+◌, ◌-◌, ◌/◌, ◌∷◌,
}
use phonepad.FileBatches.Manifest.{BatchManifest, FileSpec, Limits}

pub data BatchState : Type 0 where
  receiving stored cancelled : BatchState

pub record FileStatus : Type 0 where
  pub index : ℕ
  pub name : Bytes
  pub type : Bytes
  pub bytes : ℤ
  pub received_bytes : ℕ
  pub sha256 : Bytes

pub record Status : Type 0 where
  pub id : Bytes
  pub state : BatchState
  pub files : List FileStatus
  pub folder : Bytes

-- A directory below .phonepad-staging: its manifest, its state file and its payloads, `file-0`,
-- `file-1` and so on; the last two times are the modification
-- times of the directory and of the state file. Times are in nanoseconds.
pub record Stage : Type 0 where
  pub manifest : BatchManifest
  pub state : BatchState
  pub updated_at : ℕ
  pub stage_modified : ℕ
  pub state_modified : ℕ
  pub files : List FileStatus
  pub payloads : List Bytes

-- A folder `batch-ID`: its receipt, and its files IsUnder their public names.
pub record Published : Type 0 where
  pub manifest : BatchManifest
  pub files : List FileStatus
  pub folder : Bytes
  pub contents : List (Bytes × Bytes)

pub record Store : Type 0 where
  pub stages : List (Bytes × Stage)
  pub destinations : List (Bytes × Published)

-- `fmt.Sprintf("%d", n)`: the fuel is more than the number of digits.
decimal_digits : ℕ → ℕ → Bytes → Bytes
decimal_digits zero n out = out
decimal_digits (suc fuel) n out =
    let out' = (b'0' + n % 10) ∷ out in
    let higher = decimal_digits fuel (n / 10) out' in if ltb n 10 then out' else higher

unfoldable pub decimal : ℕ → Bytes
unfolding decimal_digits
decimal n = decimal_digits (suc n) n []

unfoldable pub published_name : ℕ → Bytes → Bytes
published_name index name = decimal (suc index) ++ (b'-' ∷ name)

initial_from : ℕ → List FileSpec → List FileStatus
initial_from i [] = []
initial_from i (spec ∷ specs) =
    record {
      index = i;
      name = published_name i spec.name;
      type = spec.type;
      bytes = spec.bytes;
      received_bytes = 0;
      sha256 = spec.sha256;
    }
    ∷ initial_from (suc i) specs

unfoldable pub initial_file_statuses : BatchManifest → List FileStatus
unfolding initial_from
initial_file_statuses m = initial_from 0 m.files

with_sizes : List FileStatus → List Bytes → List FileStatus
with_sizes (f ∷ fs) (p ∷ ps) = record f { received_bytes = length p } ∷ with_sizes fs ps
with_sizes fs _ = fs

-- The size of a payload counts as received.
unfoldable pub file_statuses_from_stage : BatchManifest → List Bytes → List FileStatus
unfolding with_sizes
file_statuses_from_stage m payloads = with_sizes (initial_file_statuses m) payloads

abbrev pub status_with_files : BatchManifest → BatchState → List FileStatus → Bytes → Status
status_with_files m state files folder = record {
  id = m.id;
  state = state;
  files = files;
  folder = folder;
}

abbrev pub is_receiving : BatchState → Bool
is_receiving receiving = true
is_receiving _ = false

abbrev pub is_cancelled : BatchState → Bool
is_cancelled cancelled = true
is_cancelled _ = false

-- readStageLocked: the status of a receiving stage is read off the payloads.
unfoldable pub stage_status : Stage → Status
stage_status s =
    status_with_files s.manifest s.state
      (if is_receiving s.state then file_statuses_from_stage s.manifest s.payloads else s.files) []

abbrev pub destination_status : Published → Status
destination_status p = status_with_files p.manifest stored p.files p.folder

empty_payloads : List FileSpec → List Bytes
empty_payloads [] = []
empty_payloads (spec ∷ specs) = [] ∷ empty_payloads specs

-- createStageLocked
unfoldable pub create_stage : BatchManifest → ℕ → Stage
unfolding empty_payloads
create_stage m now = record {
  manifest = m;
  state = receiving;
  updated_at = now;
  stage_modified = now;
  state_modified = now;
  files = initial_file_statuses m;
  payloads = empty_payloads m.files;
}

-- stageCountsLocked: the receiving stages, and all of them.
unfoldable pub receiving_count : List (Bytes × Stage) → ℕ
receiving_count [] = 0
receiving_count ((id, s) ∷ rest) =
    let n = receiving_count rest in if is_receiving s.state then suc n else n

abbrev earlier : ℕ → ℕ → ℕ
earlier a b = if ltb b a then b else a

-- The least of the persisted time and the modification times counts.
unfoldable pub stage_expired : Limits → ℕ → Stage → Bool
stage_expired l now s =
    leb l.ttl (now - earlier (earlier s.updated_at s.stage_modified) s.state_modified)

unfoldable pub cleanup_expired : Limits → ℕ → List (Bytes × Stage) → List (Bytes × Stage)
cleanup_expired l now [] = []
cleanup_expired l now ((id, s) ∷ rest) =
    let others = cleanup_expired l now rest in
    if stage_expired l now s then others else (id, s) ∷ others

-- renamePublishedFiles. The public names of a batch differ, each beginning with its own number, and
-- no private name begins with a digit, so none of them is taken.
unfoldable pub rename_from : ℕ → List FileSpec → List Bytes → List (Bytes × Bytes)
rename_from i (spec ∷ specs) (p ∷ ps) =
    (published_name i spec.name, p) ∷ rename_from (suc i) specs ps
rename_from i _ _ = []

unfoldable pub rename_published_files : BatchManifest → List Bytes → List (Bytes × Bytes)
unfolding rename_from
rename_published_files m payloads = rename_from 0 m.files payloads

abbrev pub destination_folder : Bytes → Bytes
destination_folder id = ascii "batch-" ++ id
