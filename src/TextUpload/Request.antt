-- ===== src/TextUpload/Request.antt =====
-- What handleInput of daemon/internal/server/input_operations.go checks of a request before any
-- registry is asked. `net/http`, `mime` and `encoding/json` are read as their results.
use phonepad.Base.{
  Bool, Bytes, List, Option, [], ascii, bytes_eq, get, if◌then◌else◌, is_empty, none, not, some, ℕ,
  ℤ, ◌&&◌, ◌==◌, ◌||◌,
}
use phonepad.TextOps.Manifest.{Manifest}
use phonepad.TextOps.Transfer.{Receipt}
use phonepad.Session.Leases.{InputLease, retired_long_ago}
use phonepad.Session.Permissions.{input_scope, permission_rejection_code}
use phonepad.Session.State.{
  ServerState, MutationPermit, capture_mutation_permit, is_some, permission_of,
}

-- inputRequest
pub record UploadRequest : Type 0 where
  pub op : Bytes
  pub session : Bytes
  pub session_epoch : Bytes
  pub operation_id : Bytes
  pub manifest : Manifest
  pub index : ℤ
  pub bytes : Bytes

-- The HTTP request: `body` is `none` if it does not decode, or if something follows it.
pub record HttpRequest : Type 0 where
  pub authorised : Bool
  pub is_post : Bool
  pub same_origin : Bool
  pub is_json : Bool
  pub body : Option UploadRequest

-- A status with its text, a receipt, a receipt with a detail, or a new input session.
pub data Answer : Type 0 where
  refuses : ℕ → Bytes → Answer
  answers : Receipt → Answer
  details : Receipt → Bytes → Answer
  renewed : Bytes → Option Bytes → Answer

abbrev pub protocol_version : ℕ
protocol_version = 2

-- What the critical section under `s.mu` finds: a refusal, or the lease to work on. `works` is for
-- the operations of a live session: the permit, the lease and the target bound to the operation.
pub data Admission : Type 0 where
  refused : ℕ → Bytes → Admission
  reads : InputLease → Admission
  cancelling : InputLease → Admission
  renews : Admission
  works : MutationPermit → InputLease → Bytes → Admission

abbrev stale : ServerState → UploadRequest → Bool
stale s q =
    s.current_protocol == protocol_version
    && (is_empty s.session_epoch
        || is_empty q.session_epoch
        || not (bytes_eq q.session_epoch s.session_epoch))

abbrev pub is_op : UploadRequest → Bytes → Bool
is_op q name = bytes_eq q.op name

-- A lease of another session that was retired long ago is as good as gone.
abbrev expired : ServerState → UploadRequest → ℕ → InputLease → Bool
expired s q now lease =
    not (bytes_eq s.input_session q.session) && retired_long_ago now lease.retired

abbrev pub bound_target : Bytes → List (Bytes × Bytes) → Bytes
bound_target id targets = elim (get id targets) [ none ↦ [] | some target ↦ target ]

abbrev target_id : UploadRequest → Bytes
target_id q = if is_op q (ascii "begin") then q.manifest.operation_id else q.operation_id

admit_live : ServerState → UploadRequest → MutationPermit → InputLease → Admission
admit_live s q permit lease =
    if not (is_some s.current) || not (bytes_eq s.input_session q.session)
    then refused 409 (ascii "inactive input session")
    else if is_op q (ascii "renew")
    then renews
    else works permit lease (bound_target (target_id q) lease.targets)

unknown_session : Admission
unknown_session = refused 409 (ascii "unknown input session; do not replay")

with_known : ServerState → ℕ → UploadRequest → (InputLease → Admission) → Admission
unfolding unknown_session
with_known s now q found = elim (get q.session s.input_leases) [
  | none ↦ unknown_session
  | some lease ↦ if expired s q now lease then unknown_session else found lease
]

-- The critical section, for each kind of operation.
unfoldable pub admit : ServerState → ℕ → UploadRequest → Admission
unfolding admit_live with_known
admit s now q =
    if stale s q
    then refused 409 (ascii "stale session epoch")
    else if is_op q (ascii "status")
    then with_known s now q (λ lease. reads lease)
    else if is_op q (ascii "cancel")
    then with_known s now q (λ lease. cancelling lease)
    else elim (capture_mutation_permit s input_scope) [
      | none ↦
          refused 403
            (permission_rejection_code (permission_of s input_scope).0 (ascii "input_unavailable"))
      | some permit ↦ with_known s now q (admit_live s q permit)
    ]
