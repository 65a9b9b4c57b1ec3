-- ===== src/FileTransfers/Claim.antt =====
-- copyTransfer and readTransferClipboard of daemon/internal/server/file_transfers.go, with the marker
-- file that claims the clipboard for a batch, and with a loss of power at any point.
use phonepad.Base.{
  Bool, Bytes, List, Option, [], bytes_eq, eq_ℤ, false, get, if◌then◌else◌, length, none, not, pos,
  some, true, ◌&&◌, ◌∷◌,
}
use phonepad.FileBatches.Disk.{FileStatus}
use phonepad.TextOps.Hex.{hex_encode}

pub data ClipboardState : Type 0 where
  unrequested ready unavailable uncertain : ClipboardState

pub record TransferClipboard : Type 0 where
  pub state : ClipboardState
  pub replayed : Bool

-- What is at the marker's path: nothing, a regular file with a receipt or with anything else, a link,
-- something else, or what Lstat cannot tell.
pub data Marker : Type 0 where
  absent link odd unreadable : Marker
  written : Option ClipboardState → Marker

-- `calls` lists what the clipboard answered to the calls for the batch, newest first: whether the
-- call is known to have succeeded. It is no state of the program.
pub record ClaimState : Type 0 where
  pub marker : Marker
  pub calls : List Bool

pub data Answer : Type 0 where
  says : TransferClipboard → Answer
  fails : Answer
  -- The power is gone before there is an answer.
  dies : Answer

abbrev pub uncertain_replay : TransferClipboard
uncertain_replay = record { state = uncertain; replayed = true }

-- readTransferClipboard
unfoldable pub read_clipboard : Marker → TransferClipboard
read_clipboard absent = record { state = unrequested; replayed = false }
read_clipboard (written (some unrequested)) = uncertain_replay
read_clipboard (written (some s)) = record { state = s; replayed = true }
read_clipboard _ = uncertain_replay

-- The end of an attempt whose call has returned: the receipt is not renamed over the marker, or it is
-- and the directory is not known to be on disk, or the power is lost before or after the rename, or
-- all went well.
pub data Ending : Type 0 where
  not_renamed renamed_unsynced kept : Ending
  dies_renaming : Bool → Ending

-- What becomes of an attempt that may claim. Before the claim is on disk, an error leaves the marker
-- with or without its text, and a loss of power may also take the marker away.
pub data Fate : Type 0 where
  not_created : Fate
  not_claimed : Bool → Fate
  dies_claiming : Option Bool → Fate
  dies_copying : Fate
  copies : Bool → Ending → Fate

-- The claim's text, or a part of it.
abbrev pub claim_text : Bool → Marker
claim_text true = written (some uncertain)
claim_text false = written none

abbrev pub claim_left : Option Bool → Marker
claim_left none = absent
claim_left (some complete) = claim_text complete

abbrev pub copied : Bool → ClipboardState
copied true = ready
copied false = unavailable

abbrev pub fresh : ClipboardState → Answer
fresh s = says (record { state = s; replayed = false })

-- What follows Copy, whose result is `ok`; `s` has the claim.
unfoldable pub end_copy : ClaimState → Bool → Ending → ClaimState × Answer
end_copy s ok not_renamed = (s, fresh uncertain)
end_copy s ok renamed_unsynced = (record s { marker = written (some (copied ok)) }, fresh uncertain)
end_copy s ok (dies_renaming false) = (s, dies)
end_copy s ok (dies_renaming true) = (record s { marker = written (some (copied ok)) }, dies)
end_copy s ok kept = (record s { marker = written (some (copied ok)) }, fresh (copied ok))

-- The effect in the gate, where no marker is in the way.
unfoldable pub claim_fresh : ClaimState → Fate → ClaimState × Answer
claim_fresh s not_created = (s, fails)
claim_fresh s (not_claimed complete) = (record s { marker = claim_text complete }, fails)
claim_fresh s (dies_claiming left) = (record s { marker = claim_left left }, dies)
claim_fresh s dies_copying = (record { marker = claim_text true; calls = false ∷ s.calls }, dies)
claim_fresh s (copies ok ending) =
    end_copy (record { marker = claim_text true; calls = ok ∷ s.calls }) ok ending

-- The effect in the gate: the marker is created with O_EXCL.
unfoldable pub claim : ClaimState → Fate → ClaimState × Answer
claim s fate = elim s.marker [
  | absent ↦ claim_fresh s fate
  | _ ↦ (s, says (record (read_clipboard s.marker) { replayed = true }))
]

module _ (sum256 : Bytes → Bytes) where
  -- Each published file is there, of its size and its digest.
  unfoldable pub verify_published : List FileStatus → List (Bytes × Bytes) → Bool
  verify_published [] contents = true
  verify_published (f ∷ files) contents =
      let rest = verify_published files contents in
      elim (get f.name contents) [
        | none ↦ false
        | some b ↦
            eq_ℤ (pos (length b)) f.bytes && bytes_eq (hex_encode (sum256 b)) f.sha256 && rest
      ]

  -- copyTransfer: `looked` is the marker at the first look, which may be long before the gate, and
  -- `permitted` says whether the gate runs the effect.
  unfoldable pub copy_transfer :
      List FileStatus
      → Marker
      → List (Bytes × Bytes)
      → Bool
      → ClaimState
      → Fate
      → ClaimState × Answer
  copy_transfer files looked contents permitted s fate = elim looked [
    | unreadable ↦ (s, fails)
    | odd ↦ (s, says uncertain_replay)
    | link ↦ (s, says (read_clipboard s.marker))
    | written receipt ↦ (s, says (read_clipboard s.marker))
    | absent ↦
        if not (verify_published files contents)
        then (s, fresh uncertain)
        else if not permitted
        then (s, fails)
        else claim s fate
  ]
