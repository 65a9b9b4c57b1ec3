-- ===== src/FileTransfers/Tests.antt =====
-- Runs of the model of daemon/internal/server/file_transfers.go, and the theorems at them.
use phonepad.Base.{
  Bytes, List, [], ascii, bytes_eq, false, get, length, none, pos, refl, some, true, ◌∷◌, ◌≡◌, ◌≤◌,
  ◌⊎◌,
}
use phonepad.FileBatches.Disk.{FileStatus}
use phonepad.TextOps.Hex.{hex_encode}
use phonepad.FileTransfers.Claim.{
  copies, kept, Fate, absent, claim, claim_fresh, copy_transfer, dies_claiming, end_copy,
  read_clipboard, ready, verify_published, written,
}
use phonepad.FileTransfers.Once.{Attempt, attempts, copied_once, new_batch}

-- In place of SHA-256: the bytes themselves.
abbrev plain : Bytes → Bytes
plain b = b

abbrev notes : List FileStatus
notes =
    record {
      index = 0;
      name = ascii "001-notes.txt";
      type = ascii "text/plain";
      bytes = pos 1;
      received_bytes = 1;
      sha256 = ascii "07";
    }
    ∷ []

abbrev asks : Fate → Attempt
asks fate = record {
  looked = absent;
  contents = (ascii "001-notes.txt", 7 ∷ []) ∷ [];
  permitted = true;
  fate = fate;
}

-- The power is lost before the claim is on disk, then a request copies, and a third one that looked
-- before that comes to the gate.
abbrev requests : List Attempt
requests = asks (dies_claiming none) ∷ asks (copies true kept) ∷ asks (copies true kept) ∷ []

requests_once :
    attempts plain notes new_batch requests
    ≡ (record { marker = written (some ready); calls = true ∷ [] }, true)
unfolding attempts copy_transfer verify_published claim claim_fresh end_copy read_clipboard get
    bytes_eq hex_encode
requests_once = refl

copied_once_example :
    let out = attempts plain notes new_batch requests in
    (length out.0.calls ≤ 1) × ((out.1 ≡ false) ⊎ (out.0.calls ≡ true ∷ []))
copied_once_example = copied_once plain notes requests
