-- ===== src/TextUpload/Handler.antt =====
-- handleInput of daemon/internal/server/input_operations.go: the request's way from the first check
-- to the answer.
use phonepad.Base.{Bool, Bytes, Option, ascii, false, if◌then◌else◌, none, not, some, true, ℕ, ◌==◌}
use phonepad.Protocol.Tokens.{valid_session_epoch}
use phonepad.TextOps.Manifest.{Manifest}
use phonepad.TextOps.Transfer.{cancelled, Error, Receipt, State, cancel, wrong_state}
use phonepad.TextOps.Transfer.History.{cancels}
use phonepad.TextOps.Registry.{begin, begins, lookup}
use phonepad.Session.State.{ServerState, with_lease}
use phonepad.TextUpload.Request.{
  Answer, Admission, HttpRequest, UploadRequest, admit, answers, cancelling, is_op,
  protocol_version, reads, refused, refuses, renewed, renews, works,
}
use phonepad.TextUpload.World.{
  World, LiteralResult, Others, Outcome, ask, call_on, error_text, hold, meet, transfer_of,
}
use phonepad.TextUpload.Begin.{begin_upload}
use phonepad.TextUpload.Commit.{upload_step}

-- The literal adapter of the injector, asked for the focus once and for texts.
pub record Adapter : Type 0 where
  pub focus : Option LiteralResult
  pub insert : Bytes → Bytes → Option LiteralResult

abbrev pub focus_of : Option Adapter → Option (Option LiteralResult)
focus_of none = none
focus_of (some a) = some a.focus

abbrev pub insert_of : Option Adapter → Option (Bytes → Bytes → Option LiteralResult)
insert_of none = none
insert_of (some a) = some a.insert

unknown_operation : Answer
unknown_operation = refuses 404 (ascii "unknown operation; do not replay")

abbrev is_cancelled : State → Bool
is_cancelled cancelled = true
is_cancelled _ = false

-- A transfer that retirement cancelled already is cancelled again without an error.
abbrev cancel_error : Receipt → Option Error → Option Error
cancel_error r (some wrong_state) = if is_cancelled r.state then none else some wrong_state
cancel_error r e = e

module _ (sum256 : Bytes → Bytes) (others : ℕ → Others) where
  cancel_begun : World → Manifest → Outcome
  cancel_begun w m =
      let before = meet sum256 w (others 1) in
      let (t, receipt', e) = cancel (transfer_of before m) in
      let after = call_on sum256 before m cancels in
      elim (cancel_error receipt' e) [
        | some err ↦ (after, refuses 409 (error_text err))
        | none ↦ (after, answers receipt')
      ]

  -- The lookup stands in the section under `s.mu`.
  unfoldable pub cancel_upload : World → Bytes → Outcome
  unfolding cancel_begun unknown_operation
  cancel_upload w id = elim (lookup w.registry id) [
    | none ↦ (w, unknown_operation)
    | some found ↦
        let before = meet sum256 w (others 0) in
        let after = ask sum256 before (begins found.manifest) in
        elim (begin before.registry found.manifest).1 [
          | some _ ↦ (after, refuses 409 (ascii "operation unavailable"))
          | none ↦ cancel_begun after found.manifest
        ]
  ]

  read_upload : World → Bytes → Outcome
  unfolding unknown_operation
  read_upload w id = elim (lookup w.registry id) [
    | none ↦ (w, unknown_operation)
    | some found ↦ (w, answers found)
  ]

  -- `newInputLease` under `s.mu`.
  renew_lease : ServerState → ℕ → Option Bytes → ServerState × Answer
  renew_lease s now random =
      let s' = with_lease s now random in
      (
        s',
        renewed s'.input_session
            (if s'.current_protocol == protocol_version then some s'.session_epoch else none),
      )

  -- What follows the section under `s.mu`: the server and, for a lease, its world, with the answer.
  unfoldable pub serve_admitted :
      ServerState
      → ℕ
      → Option Bytes
      → UploadRequest
      → Option Adapter
      → Admission
      → ServerState × Option World × Answer
  unfolding read_upload renew_lease
  serve_admitted s now random q adapter (refused code text) = (s, none, refuses code text)
  serve_admitted s now random q adapter (reads lease) =
      let (w, answer) = read_upload (hold s lease) q.operation_id in (w.server, some w, answer)
  serve_admitted s now random q adapter (cancelling lease) =
      let (w, answer) = cancel_upload (hold s lease) q.operation_id in (w.server, some w, answer)
  serve_admitted s now random q adapter renews =
      let (s', answer) = renew_lease s now random in (s', none, answer)
  serve_admitted s now random q adapter (works permit lease target) =
      let (w, answer) =
        if is_op q (ascii "begin")
        then begin_upload sum256 others (hold s lease) permit q target (focus_of adapter)
        else upload_step sum256 others (hold s lease) permit q target (insert_of adapter) in
      (w.server, some w, answer)

  -- The checks that come first, in the order of the source.
  unfoldable pub handle_input :
      ServerState
      → HttpRequest
      → ℕ
      → Option Bytes
      → Option Adapter
      → ServerState × Option World × Answer
  handle_input s r now random adapter =
      if s.lifecycle_closing
      then (s, none, refuses 503 (ascii "server is shutting down"))
      else if not r.authorised
      then (s, none, refuses 401 (ascii "unauthorized"))
      else if not r.is_post
      then (s, none, refuses 405 (ascii "method"))
      else if not r.same_origin
      then (s, none, refuses 403 (ascii "origin"))
      else if not r.is_json
      then (s, none, refuses 415 (ascii "JSON required"))
      else elim r.body [
        | none ↦ (s, none, refuses 400 (ascii "invalid operation"))
        | some q ↦
            if not (valid_session_epoch q.session_epoch)
            then (s, none, refuses 400 (ascii "invalid session epoch"))
            else serve_admitted s now random q adapter (admit s now q)
      ]
