-- ===== src/Session/State.antt =====
-- The state of Server that permits and leases depend on, and what changes it.
use phonepad.Base.{
  Bool, Bytes, List, Option, [], bytes_eq, false, if◌then◌else◌, is_empty, none, not, some, true, ℕ,
  ◌%◌, ◌&&◌, ◌+◌, ◌==◌, ◌^◌, ◌||◌, ◌∷◌,
}
use phonepad.Session.Leases.{InputLeases, new_input_lease, retire_input_leases, retire_session}
use phonepad.Session.Permissions.{
  Permission, Permissions, Scope, effective_permissions, input_scope, is_granted,
  normalize_permissions, permission_in,
}

pub record ServerState : Type 0 where
  pub permissions : Permissions
  pub has_injector : Bool
  pub input_reset_incomplete : Bool
  pub permission_revision : ℕ
  pub capability_revision : ℕ
  pub gen : ℕ
  pub session_epoch : Bytes
  pub current : Option ℕ
  pub current_protocol : ℕ
  pub input_session : Bytes
  pub input_leases : InputLeases
  pub lifecycle_closing : Bool

-- The increment of a uint64.
abbrev pub next_uint64 : ℕ → ℕ
next_uint64 n = (n + 1) % 2 ^ 64

abbrev pub permission_of : ServerState → Scope → Permission × Bool
permission_of s scope =
    permission_in (effective_permissions s.permissions s.has_injector s.input_reset_incomplete)
      scope

abbrev pub input_allowed : ServerState → Bool
input_allowed s = (permission_of s input_scope).1

pub record MutationPermit : Type 0 where
  pub scope : Scope
  pub revision : ℕ
  pub generation : ℕ
  pub session_epoch : Bytes

unfoldable pub capture_mutation_permit : ServerState → Scope → Option MutationPermit
capture_mutation_permit s scope =
    if not (permission_of s scope).1
    then none
    else some (record {
      scope = scope;
      revision = s.permission_revision;
      generation = s.gen;
      session_epoch = s.session_epoch;
    })

-- Whether the permit still holds.
unfoldable pub holds : ServerState → MutationPermit → Bool
holds s permit =
    let allowed = (permission_of s permit.scope).1 in
    if allowed
      && (not (permit.revision == s.permission_revision) || not (permit.generation == s.gen))
    then false
    else if allowed
        && not (is_empty permit.session_epoch)
        && not (bytes_eq permit.session_epoch s.session_epoch)
    then false
    else allowed

pub data MutationError : Type 0 where
  no_permission server_closing : MutationError

-- runLifecycleMutation; `none` means that the effect runs.
unfoldable pub run_lifecycle_mutation : ServerState → MutationPermit → Option MutationError
run_lifecycle_mutation s permit =
    if s.lifecycle_closing
    then some server_closing
    else if not (holds s permit)
    then some no_permission
    else none

-- runPermittedMutation
unfoldable pub run_permitted_mutation : ServerState → MutationPermit → Option MutationError
run_permitted_mutation s permit = if not (holds s permit) then some no_permission else none

abbrev pub is_some {ℓ} : {A : Type ℓ} → Option A → Bool
is_some none = false
is_some (some a) = true

abbrev pub with_lease : ServerState → ℕ → Option Bytes → ServerState
with_lease s now random =
    let (session, leases) = new_input_lease s.input_session s.input_leases now random in
    record s { input_session = session; input_leases = leases }

abbrev pub revised : ServerState → Permissions → ServerState
revised s value = record s {
  permissions = normalize_permissions value;
  capability_revision = next_uint64 s.capability_revision;
  permission_revision = next_uint64 s.permission_revision;
}

abbrev pub revoked : ServerState → ℕ → Option Bytes → ServerState
revoked s now random =
    let retired = record s { input_leases = retire_input_leases now s.input_leases } in
    if is_some s.current then with_lease retired now random else retired

-- SetPermissions up to the sending of the update. `reset_fails` is the provider's answer to a reset.
-- Without the permission to view, nothing changes and an error is returned.
unfoldable pub set_permissions : ServerState → Permissions → ℕ → Option Bytes → Bool → ServerState
set_permissions s value now random reset_fails =
    let s' = revised s value in
    let was = input_allowed s in
    let is = input_allowed s' in
    let gone = if was && not is then revoked s' now random else s' in
    if not (is_granted value.view)
    then s
    else if (was && not is)
        || (s.input_reset_incomplete && is_granted (normalize_permissions value).input)
    then record gone { input_reset_incomplete = reset_fails }
    else gone

-- setCurrent; `epoch` is `none` if there is no randomness, and `geometry_fails` the provider's answer.
-- A connection that is refused changes nothing.
unfoldable pub set_current :
    ServerState → ℕ → ℕ → Option Bytes → ℕ → Option Bytes → Bool → Bool → ServerState
set_current s c protocol epoch now random geometry_fails reset_fails =
    let connected = record s {
      current = some c;
      gen = next_uint64 s.gen;
      current_protocol = protocol;
      session_epoch = elim epoch [ none ↦ [] | some e ↦ e ];
      capability_revision = next_uint64 s.capability_revision;
    } in
    if not (is_some epoch) && protocol == 2 || s.lifecycle_closing || geometry_fails
    then s
    else record (with_lease connected now random) { input_reset_incomplete = reset_fails }

abbrev pub same_connection : Option ℕ → ℕ → Bool
same_connection none c = false
same_connection (some d) c = d == c

-- clearCurrent
unfoldable pub clear_current : ServerState → ℕ → ℕ → ℕ → Bool → ServerState
clear_current s c gen now reset_fails =
    if not (same_connection s.current c && s.gen == gen) then s else record s {
      current = none;
      current_protocol = 0;
      session_epoch = [];
      capability_revision = next_uint64 s.capability_revision;
      input_leases = retire_session s.input_session now s.input_leases;
      gen = next_uint64 s.gen;
      input_reset_incomplete = reset_fails;
    }

-- The first section of shutdownResources, for a server whose admission is closed.
unfoldable pub shutdown_resources : ServerState → ℕ → ServerState
shutdown_resources s now = record s {
  current = none;
  current_protocol = 0;
  session_epoch = [];
  input_session = [];
  capability_revision = next_uint64 s.capability_revision;
  gen = next_uint64 s.gen;
  input_leases = retire_input_leases now s.input_leases;
}

pub data Change : Type 0 where
  permits : Permissions → ℕ → Option Bytes → Bool → Change
  connects : ℕ → ℕ → Option Bytes → ℕ → Option Bytes → Bool → Bool → Change
  disconnects : ℕ → ℕ → ℕ → Bool → Change
  shuts_down : ℕ → Change

unfoldable pub change : ServerState → Change → ServerState
change s (permits value now random fails) = set_permissions s value now random fails
change s (connects c protocol epoch now random geometry_fails reset_fails) =
    set_current s c protocol epoch now random geometry_fails reset_fails
change s (disconnects c gen now fails) = clear_current s c gen now fails
change s (shuts_down now) = shutdown_resources s now

unfoldable pub change_all : ServerState → List Change → ServerState
change_all s [] = s
change_all s (c ∷ cs) = change_all (change s c) cs
