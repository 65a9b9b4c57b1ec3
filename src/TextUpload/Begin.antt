-- ===== src/TextUpload/Begin.antt =====
-- The operation `begin` of handleInput in daemon/internal/server/input_operations.go, with the focus
-- probe that binds a target to the operation.
use phonepad.Base.{
  Bool, Bytes, Option, [], ascii, bytes_eq, get, if◌then◌else◌, is_empty, length, none, not, put,
  some, ℕ, ◌&&◌, ◌==◌,
}
use phonepad.TextOps.Manifest.{Manifest}
use phonepad.TextOps.Transfer.{is_receiving, receipt}
use phonepad.TextOps.Transfer.History.{cancels}
use phonepad.TextOps.Registry.{begin, begins}
use phonepad.Session.State.{MutationPermit, is_some, run_lifecycle_mutation, ServerState}
use phonepad.TextUpload.Request.{UploadRequest, answers, bound_target, details, refuses}
use phonepad.TextUpload.World.{
  World, LiteralResult, Others, Outcome, ask, bounded_literal_focus, call_on, error_text,
  literal_clipboard_allowed, meet, transfer_of,
}

-- The fields of an answer that carries a usable target.
abbrev is_usable : LiteralResult → Bool
is_usable focus = bytes_eq focus.state (ascii "ready") && length focus.target == 64

interrupted : LiteralResult
interrupted = record {
  state = ascii "uncertain";
  detail = ascii "focus_probe_interrupted";
  target = [];
}

-- The fallback's target wants the permission of the clipboard too.
pub judged_focus : ServerState → LiteralResult → LiteralResult
judged_focus s answered =
    if bytes_eq answered.state (ascii "ready") && not (literal_clipboard_allowed s answered.target)
    then record {
      state = ascii "rejected";
      detail = ascii "clipboard_permission_required";
      target = [];
    }
    else answered

module _ (sum256 : Bytes → Bytes) (others : ℕ → Others) where
  -- What is published inside the gate: the lease must still be the live one.
  unfoldable pub publish_target : World → Bytes → Manifest → Bytes → World
  publish_target w session m target =
      if is_some (get session w.server.input_leases)
        && bytes_eq w.server.input_session session
        && is_some w.server.current
        && not w.server.lifecycle_closing
        && is_receiving (transfer_of w m).state
      then record w { targets = put m.operation_id target w.targets }
      else w

  -- The effect in the gate: a target that is bound already is used again, without a probe.
  unfoldable pub probe_focus :
      World → Bytes → Manifest → Option LiteralResult → World × LiteralResult
  probe_focus w session m adapter =
      let bound = bound_target m.operation_id w.targets in
      let asking = meet sum256 w (others 3) in
      let focus = judged_focus asking.server (bounded_literal_focus adapter) in
      if not (is_empty bound)
      then (w, record { state = ascii "ready"; detail = []; target = bound })
      else if not (is_usable focus)
      then (asking, focus)
      else (publish_target (meet sum256 asking (others 4)) session m focus.target, focus)

  -- transfer.Cancel, whose result is not read, and the receipt after it.
  abbrev give_up : World → Manifest → Bytes → Outcome
  give_up w m detail =
      let cancelled = call_on sum256 (meet sum256 w (others 5)) m cancels in
      let later = meet sum256 cancelled (others 6) in
      (later, details (receipt (transfer_of later m)) detail)

  unfoldable pub begin_unbound :
      World → Bytes → Manifest → MutationPermit → Option LiteralResult → Outcome
  unfolding interrupted
  begin_unbound w session m permit adapter =
      let gate = meet sum256 w (others 2) in
      let (probed, focus) = probe_focus gate session m adapter in
      elim (run_lifecycle_mutation gate.server permit) [
        | some _ ↦ give_up gate m (ascii "input_permission_changed")
        | none ↦
            if not (is_usable focus)
            then give_up probed m focus.detail
            else (probed, answers (receipt (transfer_of (meet sum256 probed (others 7)) m)))
      ]

  -- `adapter` is `none` without a literal adapter; inside, its answer to the probe.
  unfoldable pub begin_upload :
      World → MutationPermit → UploadRequest → Bytes → Option (Option LiteralResult) → Outcome
  begin_upload w permit q target adapter =
      let m = q.manifest in
      let before = meet sum256 w (others 0) in
      let after = ask sum256 before (begins m) in
      let held = meet sum256 after (others 1) in
      let receipt' = receipt (transfer_of held m) in
      if not (bytes_eq m.session q.session)
      then (w, refuses 400 (ascii "session mismatch"))
      else elim (begin before.registry m).1 [
        | some err ↦ (after, refuses 409 (error_text err))
        | none ↦
            if not (is_empty target && is_receiving receipt'.state)
            then (held, answers receipt')
            else elim adapter [
              | none ↦
                  (call_on sum256 held m cancels, refuses 503 (ascii "literal adapter unavailable"))
              | some answer ↦ begin_unbound held q.session m permit answer
            ]
      ]
