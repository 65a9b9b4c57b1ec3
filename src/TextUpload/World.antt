-- ===== src/TextUpload/World.antt =====
-- The objects that a request of handleInput holds once it has left `s.mu`: the registry and the
-- targets of its lease, with what other goroutines do to them and to the server meanwhile.
use phonepad.Base.{
  Bool, Bytes, List, Option, [], ascii, bytes_eq, if◌then◌else◌, none, not, put, some, true, ◌++◌,
  ◌∷◌,
}
use phonepad.Session.Permissions.{clipboard_scope}
use phonepad.Session.Leases.{InputLease}
use phonepad.TextOps.Manifest.{Manifest}
use phonepad.TextOps.Transfer.{
  TextTransfer, Error, capacity, conflict, incomplete, invalid, new_transfer, wrong_state,
}
use phonepad.TextOps.Transfer.History.{Call}
use phonepad.TextOps.Registry.{Registry, Request, calls, find, run_registry, serve}
use phonepad.Session.State.{ServerState, Change, change_all, permission_of}
use phonepad.TextUpload.Request.{Answer}

-- input.LiteralResult
pub record LiteralResult : Type 0 where
  pub state : Bytes
  pub detail : Bytes
  pub target : Bytes

-- input.ClipboardFallbackTarget
abbrev pub clipboard_fallback_target : Bytes
clipboard_fallback_target = ascii "dfb7c03e49a8ecb781d00ea95ff5c9924657c8dd1a3d05ebdc0cc090ef1b9ec8"

-- A call of LiteralText, with the server as it was when the gate let the call through, and as it was
-- when the clipboard permission was asked for.
pub record Dispatch : Type 0 where
  pub text : Bytes
  pub target : Bytes
  pub gate : ServerState
  pub asked : ServerState

-- `requests` lists what was done to the registry since the request took hold of it, by anyone, and
-- `changes` what was done to the server; neither is state of the program.
pub record World : Type 0 where
  pub server : ServerState
  pub registry : Registry
  pub targets : List (Bytes × Bytes)
  pub changes : List Change
  pub requests : List Request
  pub dispatched : List Dispatch

abbrev pub hold : ServerState → InputLease → World
hold s lease = record {
  server = s;
  registry = lease.registry;
  targets = lease.targets;
  changes = [];
  requests = [];
  dispatched = [];
}

-- What others do between two steps: any changes, any requests, any targets.
pub record Others : Type 0 where
  pub changes : List Change
  pub requests : List Request
  pub bindings : List (Bytes × Bytes)

unfoldable pub bind_all : List (Bytes × Bytes) → List (Bytes × Bytes) → List (Bytes × Bytes)
bind_all [] targets = targets
bind_all ((id, target) ∷ rest) targets = bind_all rest (put id target targets)

-- err.Error() of the errors of inputops
unfoldable pub error_text : Error → Bytes
error_text invalid = ascii "invalid text operation"
error_text conflict = ascii "operation or chunk conflicts with existing content"
error_text incomplete = ascii "text transfer is incomplete"
error_text capacity = ascii "session operation capacity reached"
error_text wrong_state = ascii "operation is not in the required state"

-- literalClipboardAllowed
unfoldable pub literal_clipboard_allowed : ServerState → Bytes → Bool
literal_clipboard_allowed s target =
    if not (bytes_eq target clipboard_fallback_target)
    then true
    else (permission_of s clipboard_scope).1

-- boundedLiteralFocus and boundedLiteralText: what the adapter answers, or `none` if the context
-- ended first.
unfoldable pub bounded_literal_focus : Option LiteralResult → LiteralResult
bounded_literal_focus (some result) = result
bounded_literal_focus none = record {
  state = ascii "uncertain";
  detail = ascii "focus_probe_interrupted";
  target = [];
}

unfoldable pub bounded_literal_text : Option LiteralResult → Bytes → LiteralResult
bounded_literal_text (some result) target = result
bounded_literal_text none target = record {
  state = ascii "uncertain";
  detail = ascii "dispatch_wait_interrupted";
  target = target;
}

abbrev pub Outcome : Type 0
Outcome = World × Answer

-- The transfer that a pointer from `Begin(m)` points to; a registry that has begun `m` knows it.
unfoldable pub transfer_of : World → Manifest → TextTransfer
transfer_of w m = elim (find m.operation_id w.registry.operations) [
  | none ↦ new_transfer m
  | some t ↦ t
]

module _ (sum256 : Bytes → Bytes) where
  unfoldable pub meet : World → Others → World
  meet w o = record w {
    server = change_all w.server o.changes;
    registry = run_registry sum256 w.registry o.requests;
    targets = bind_all o.bindings w.targets;
    changes = w.changes ++ o.changes;
    requests = w.requests ++ o.requests;
  }

  -- One call on the registry or on a transfer.
  unfoldable pub ask : World → Request → World
  ask w q = record w { registry = (serve sum256 w.registry q).0; requests = w.requests ++ q ∷ [] }

  -- A call through a transfer's pointer that returns a receipt.
  abbrev pub call_on : World → Manifest → Call → World
  call_on w m c = ask w (calls m.operation_id c)
