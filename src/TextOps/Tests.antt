-- ===== src/TextOps/Tests.antt =====
-- The theorems on text operations at concrete inputs, over a small stand-in for SHA-256.
use phonepad.Base.{
  Bytes, List, [], arith, ascii, bytes_eq, if◌then◌else◌, inl, length, ltb, none, not, pos, refl,
  some, suc, true, zero, ℕ, ◌%◌, ◌==◌, ◌||◌, ◌∷◌, ◌≡◌,
}
use phonepad.TextOps.Hex.{hex_encode, hex_decode}
use phonepad.TextOps.Utf8.{utf8_valid}
use phonepad.TextOps.Manifest.{Manifest, valid_id, valid_manifest, manifest_eq, max_chunk_bytes}
use phonepad.TextOps.Transfer.{
  TextTransfer, conflict, has_nul, receipt, new_transfer, append, commit, claim, invalid,
}
use phonepad.TextOps.Transfer.History.{appends, commits, claims, retires, step, run, released}
use phonepad.TextOps.Transfer.Release.{IsText}
use phonepad.TextOps.Transfer.Retry.{append_retry, append_conflict}
use phonepad.TextOps.Transfer.Upload.{joined, uploads, new_transfer-uploads}
use phonepad.TextOps.Registry.{
  Registry, Request, begins, calls, retires_all, new_registry, find, begin, run_registry,
  released_for,
}
use phonepad.TextOps.Registry.Invariant.{IsRegistry, new_registry-IsRegistry}
use phonepad.TextOps.Registry.Once.{AtMostOneOf, new_registry-AtMostOneOf, begin_again}

abbrev zeros : ℕ → Bytes
zeros zero = []
zeros (suc n) = 0 ∷ zeros n

-- 32 bytes, as crypto/sha256 gives.
abbrev toy_sum : Bytes → Bytes
toy_sum s = length s % 256 ∷ zeros 31

abbrev piece : Bytes
piece = ascii "ab"

abbrev note : Manifest
unfolding hex_encode
note = record {
  version = pos 1;
  operation_id = ascii "op-1";
  session = ascii "s_1";
  context = ascii "field";
  sequence = 7;
  bytes = pos 4;
  sha256 = hex_encode (toy_sum (ascii "abab"));
}

note-valid : valid_manifest note ≡ true
unfolding valid_manifest valid_id note hex_decode bytes_eq
note-valid = refl

note-IsText : IsText toy_sum note (joined (piece ∷ piece ∷ []))
unfolding note joined utf8_valid
note-IsText = record { announced = refl; sized = refl; well_formed = refl; no_nul = omega arith }

released-uploads :
    released toy_sum (new_transfer note) (uploads 0 (piece ∷ piece ∷ [])) ≡ ascii "abab" ∷ []
unfolding released step append commit claim new_transfer note utf8_valid has_nul bytes_eq
released-uploads = refl

new_transfer-uploads_example :
    released toy_sum (new_transfer note) (uploads 0 (piece ∷ piece ∷ []))
    ≡ joined (piece ∷ piece ∷ []) ∷ []
new_transfer-uploads_example =
    new_transfer-uploads toy_sum note (piece ∷ piece ∷ []) (omega arith) (omega arith) note-IsText

first_accepted : (append toy_sum (new_transfer note) (pos 0) piece).2 ≡ none
unfolding append new_transfer note
first_accepted = refl

abbrev after_first : TextTransfer
after_first = run toy_sum (append toy_sum (new_transfer note) (pos 0) piece).0 (retires ∷ [])

append_retry_example :
    append toy_sum after_first (pos 0) piece ≡ (after_first, receipt after_first, none)
append_retry_example =
    append_retry toy_sum (new_transfer note) 0 piece (retires ∷ []) first_accepted

append_conflict_example : append toy_sum after_first (pos 0) (ascii "abc") ≡ (
  after_first,
  receipt after_first,
  (if length (ascii "abc") == 0 || ltb max_chunk_bytes (length (ascii "abc"))
      then some invalid
      else some conflict),
)
append_conflict_example =
    append_conflict toy_sum (new_transfer note) 0 piece (ascii "abc") (retires ∷ []) first_accepted
      (inl (omega arith))

abbrev empty_registry : Registry
empty_registry = record { session = ascii "s_1"; operations = []; highest = 0 }

empty_registry-new : new_registry (ascii "s_1") ≡ some empty_registry
unfolding new_registry valid_id
empty_registry-new = refl

abbrev requests : List Request
requests =
    begins note
    ∷ calls (ascii "op-1") (appends (pos 0) (ascii "abab"))
    ∷ calls (ascii "op-1") commits
    ∷ begins note
    ∷ calls (ascii "op-1") claims
    ∷ calls (ascii "op-1") claims
    ∷ []

new_registry-IsRegistry_example : IsRegistry toy_sum (run_registry toy_sum empty_registry requests)
new_registry-IsRegistry_example =
    new_registry-IsRegistry toy_sum (ascii "s_1") empty_registry requests empty_registry-new

new_registry-AtMostOneOf_example :
    AtMostOneOf toy_sum
      (ascii "s_1")
      (ascii "op-1")
      (released_for toy_sum (ascii "op-1") empty_registry requests)
new_registry-AtMostOneOf_example =
    new_registry-AtMostOneOf toy_sum (ascii "s_1") empty_registry requests (ascii "op-1")
      empty_registry-new

abbrev holding : Registry
holding = record {
  session = ascii "s_1";
  operations = (ascii "op-1", new_transfer note) ∷ [];
  highest = 7;
}

holding-finds : find (ascii "op-1") holding.operations ≡ some (new_transfer note)
unfolding find bytes_eq
holding-finds = refl

abbrev later_holding : Registry
later_holding = run_registry toy_sum holding (retires_all ∷ [])

begin_again_example : begin later_holding note ≡ (
  later_holding,
  (if not (valid_manifest note) || not (bytes_eq note.session holding.session)
      then some invalid
      else if manifest_eq (new_transfer note).manifest note
      then none
      else some conflict),
)
unfolding note
begin_again_example =
    begin_again toy_sum holding (new_transfer note) note (retires_all ∷ []) holding-finds
