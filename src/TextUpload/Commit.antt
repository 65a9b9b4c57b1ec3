-- ===== src/TextUpload/Commit.antt =====
-- The operations `chunk` and `commit` of handleInput in daemon/internal/server/input_operations.go.
-- `others` says what happens before each step, so a theorem about all `others` is one about all
-- interleavings; a step is what holds a mutex without a break.
use phonepad.Base.{Bytes, Option, [], ascii, bytes_eq, if◌then◌else◌, none, not, some, ℕ, ℤ, ◌∷◌}
use phonepad.TextOps.Manifest.{Manifest}
use phonepad.TextOps.Transfer.{
  State, append, claim, commit, dispatched, finish, is_ready, receipt, rejected, uncertain,
}
use phonepad.TextOps.Transfer.History.{appends, claims, commits, finishes}
use phonepad.TextOps.Registry.{begin, begins, lookup}
use phonepad.Session.State.{MutationPermit, run_lifecycle_mutation}
use phonepad.TextUpload.Request.{UploadRequest, answers, details, is_op, refuses}
use phonepad.TextUpload.World.{
  World, LiteralResult, Others, Outcome, ask, bounded_literal_text, call_on, error_text,
  literal_clipboard_allowed, meet, transfer_of,
}

permission_changed : LiteralResult
permission_changed = record {
  state = ascii "uncertain";
  detail = ascii "input_permission_changed";
  target = [];
}

clipboard_required : LiteralResult
clipboard_required = record {
  state = ascii "rejected";
  detail = ascii "clipboard_permission_required";
  target = [];
}

-- The state that a result is recorded as.
unfoldable pub recorded_state : LiteralResult → State
recorded_state result =
    if bytes_eq result.state (ascii "dispatched")
    then dispatched
    else if bytes_eq result.state (ascii "rejected")
    then rejected
    else uncertain

module _ (sum256 : Bytes → Bytes) (others : ℕ → Others) where
  -- transfer.Finish, and the receipt of the tombstone where that fails.
  unfoldable pub finish_dispatch : World → Manifest → LiteralResult → Outcome
  unfolding recorded_state
  finish_dispatch w m result =
      let before = meet sum256 w (others 7) in
      let (t, receipt', e) = finish (transfer_of before m) (recorded_state result) in
      let after = call_on sum256 before m (finishes (recorded_state result)) in
      elim e [
        | none ↦ (after, details receipt' result.detail)
        | some _ ↦
            let later = meet sum256 after (others 8) in
            (later, details (receipt (transfer_of later m)) result.detail)
      ]

  -- The effect that runs in the gate: `w` is the world at which the gate was passed.
  unfoldable pub dispatch_text :
      World → Bytes → Bytes → (Bytes → Bytes → Option LiteralResult) → World × LiteralResult
  unfolding clipboard_required
  dispatch_text w text target adapter =
      let asking = meet sum256 w (others 6) in
      if not (literal_clipboard_allowed asking.server target)
      then (asking, clipboard_required)
      else (
        record asking {
          dispatched =
              record { text = text; target = target; gate = w.server; asked = asking.server }
              ∷ asking.dispatched;
        },
        bounded_literal_text (adapter text target) target,
      )

  unfoldable pub dispatch_claimed :
      World
      → Manifest
      → MutationPermit
      → Bytes
      → Bytes
      → (Bytes → Bytes → Option LiteralResult)
      → Outcome
  unfolding permission_changed
  dispatch_claimed w m permit text target adapter =
      let gate = meet sum256 w (others 5) in
      let (sent, result) = dispatch_text gate text target adapter in
      elim (run_lifecycle_mutation gate.server permit) [
        | some _ ↦ finish_dispatch gate m permission_changed
        | none ↦ finish_dispatch sent m result
      ]

  unfoldable pub dispatch_ready :
      World
      → Manifest
      → MutationPermit
      → Bytes
      → Option (Bytes → Bytes → Option LiteralResult)
      → Outcome
  dispatch_ready w m permit target none = (w, refuses 503 (ascii "literal adapter unavailable"))
  dispatch_ready w m permit target (some adapter) =
      let before = meet sum256 w (others 4) in
      let after = call_on sum256 before m claims in
      elim (claim (transfer_of before m)).1 [
        | none ↦ (after, refuses 409 (ascii "operation already dispatched"))
        | some text ↦ dispatch_claimed after m permit text target adapter
      ]

  unfoldable pub commit_begun :
      World
      → Manifest
      → MutationPermit
      → Bytes
      → Option (Bytes → Bytes → Option LiteralResult)
      → Outcome
  commit_begun w m permit target adapter =
      let before = meet sum256 w (others 3) in
      let (t, receipt', e) = commit sum256 (transfer_of before m) in
      let after = call_on sum256 before m commits in
      elim e [
        | some err ↦ (after, refuses 409 (error_text err))
        | none ↦
            if is_ready receipt'.state
            then dispatch_ready after m permit target adapter
            else (after, answers receipt')
      ]

  unfoldable pub chunk_begun : World → Manifest → ℤ → Bytes → Outcome
  chunk_begun w m index bytes =
      let before = meet sum256 w (others 3) in
      let (t, receipt', e) = append sum256 (transfer_of before m) index bytes in
      let after = call_on sum256 before m (appends index bytes) in
      elim e [ some err ↦ (after, refuses 409 (error_text err)) | none ↦ (after, answers receipt') ]

  -- Lookup, and Begin with the manifest on record, which returns the transfer on record.
  unfoldable pub with_transfer : World → Bytes → (World → Manifest → Outcome) → Outcome
  with_transfer w id go =
      let looking = meet sum256 w (others 1) in
      elim (lookup looking.registry id) [
        | none ↦ (looking, refuses 404 (ascii "unknown operation; do not replay"))
        | some found ↦
            let before = meet sum256 looking (others 2) in
            let after = ask sum256 before (begins found.manifest) in
            elim (begin before.registry found.manifest).1 [
              | some _ ↦ (after, refuses 409 (ascii "operation unavailable"))
              | none ↦ go after found.manifest
            ]
      ]

  unfoldable pub upload_begun :
      MutationPermit
      → UploadRequest
      → Bytes
      → Option (Bytes → Bytes → Option LiteralResult)
      → World
      → Manifest
      → Outcome
  upload_begun permit q target adapter w m =
      if is_op q (ascii "chunk")
      then chunk_begun w m q.index q.bytes
      else if is_op q (ascii "commit")
      then commit_begun w m permit target adapter
      else (w, refuses 400 (ascii "unsupported operation"))

  unfoldable pub upload_step :
      World
      → MutationPermit
      → UploadRequest
      → Bytes
      → Option (Bytes → Bytes → Option LiteralResult)
      → Outcome
  upload_step w permit q target adapter =
      with_transfer w q.operation_id (upload_begun permit q target adapter)
