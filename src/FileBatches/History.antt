-- ===== src/FileBatches/History.antt =====
-- Any sequence of calls of a store, and what it keeps of the published folders.
use phonepad.Base.{Bool, Bytes, List, [], ℕ, ℤ, ◌∷◌}
use phonepad.FileBatches.Manifest.{BatchManifest, Limits}
use phonepad.FileBatches.Disk.{Store}
use phonepad.FileBatches.Store.{begin, cancel, commit, status, write_chunk}

-- The calls, each with its time and the answer of its guard. The limits may change between calls.
pub data Call : Type 0 where
  begins : Limits → BatchManifest → ℕ → Bool → Call
  asks : Limits → Bytes → ℕ → Call
  writes : Limits → Bytes → ℤ → ℤ → Bytes → Bytes → ℕ → Bool → Call
  commits : Limits → Bytes → ℕ → Bool → Call
  cancels : Limits → Bytes → ℕ → Call

-- What New makes: the root holds nothing yet.
abbrev pub new_store : Store
new_store = record { stages = []; destinations = [] }

module _ (sum256 : Bytes → Bytes) where
  unfoldable pub run_call : Store → Call → Store
  run_call st (begins l m now permitted) = (begin l st m now permitted).0
  run_call st (asks l id now) = (status l st id now).0
  run_call st (writes l id i offset bytes sum now permitted) =
      (write_chunk sum256 l st id i offset bytes sum now permitted).0
  run_call st (commits l id now permitted) = (commit sum256 l st id now permitted).0
  run_call st (cancels l id now) = (cancel l st id now).0

  unfoldable pub run_calls : Store → List Call → Store
  run_calls st [] = st
  run_calls st (c ∷ cs) = run_calls (run_call st c) cs
