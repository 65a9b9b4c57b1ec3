-- ===== src/Session/Tests.antt =====
-- A server with a controller that uploads a text while its host revokes the input.
use phonepad.Base.{
  All, List, [], arith, ascii, bytes_eq, false, none, pos, refl, some, true, ◌∷◌, ◌≡◌, ◌≢◌,
}
use phonepad.TextOps.Manifest.{Manifest}
use phonepad.TextOps.Transfer.{new_transfer}
use phonepad.Session.State.{
  Change, MutationPermit, ServerState, capture_mutation_permit, change, change_all, clear_current,
  connects, disconnects, no_permission, permits, run_lifecycle_mutation, run_permitted_mutation,
  set_current, set_permissions,
}
use phonepad.Session.Leases.{InputLease}
use phonepad.Session.Capacity.{IsFew, change_all-IsFew}
use phonepad.Session.Revocation.{IsSilent, set_permissions_silences}
use phonepad.Session.Permissions.{
  Permission, Permissions, effective_permissions, files_scope, granted, normalize_permission,
  normalize_permissions, permission_in,
}
use phonepad.Session.Permits.{capture_lapses, effective}

abbrev all_granted : Permissions
all_granted =
    let yes : Permission = record { state = granted; reason = [] } in
    record { view = yes; input = yes; files = yes; clipboard = yes }

abbrev no_input : Permissions
no_input = record all_granted { input = record { state = ascii "revoked"; reason = [] } }

abbrev text_manifest : Manifest
text_manifest = record {
  version = pos 1;
  operation_id = ascii "op";
  session = ascii "s1";
  context = ascii "c";
  sequence = 1;
  bytes = pos 5;
  sha256 = [];
}

abbrev lease : InputLease
lease = record {
  registry = record {
    session = ascii "s1";
    operations = (ascii "op", new_transfer text_manifest) ∷ [];
    highest = 1;
  };
  created = 5;
  retired = none;
  targets = [];
}

abbrev server : ServerState
server = record {
  permissions = all_granted;
  has_injector = true;
  input_reset_incomplete = false;
  permission_revision = 7;
  capability_revision = 9;
  gen = 3;
  session_epoch = ascii "epoch";
  current = some 1;
  current_protocol = 2;
  input_session = ascii "s1";
  input_leases = (ascii "s1", lease) ∷ [];
  lifecycle_closing = false;
}

abbrev permit : MutationPermit
permit = record { scope = files_scope; revision = 7; generation = 3; session_epoch = ascii "epoch" }

abbrev events : List Change
events =
    disconnects 2 3 10 false
    ∷ permits no_input 11 (some (171 ∷ 205 ∷ [])) false
    ∷ connects 4 2 (some (ascii "next")) 12 (some (1 ∷ [])) false false
    ∷ []

captured : capture_mutation_permit server files_scope ≡ some permit
unfolding capture_mutation_permit permission_in effective_permissions bytes_eq
captured = refl

takes_two : effective server events ≡ 2
unfolding effective change clear_current set_permissions set_current bytes_eq permission_in
    effective_permissions normalize_permissions normalize_permission
takes_two = refl

capture_lapses_example :
    (run_permitted_mutation (change_all server events) permit ≡ some no_permission)
    × (run_lifecycle_mutation (change_all server events) permit ≢ none)
capture_lapses_example =
    capture_lapses server files_scope permit events
      (record { revision_fits = omega arith; generation_fits = omega arith }) captured
      (rw takes_two (omega arith)) (rw takes_two (omega arith))

set_permissions_silences_example :
    All
      (IsSilent (λ s. s))
      (set_permissions server no_input 11 (some (171 ∷ 205 ∷ [])) false).input_leases
unfolding bytes_eq permission_in effective_permissions normalize_permissions normalize_permission
set_permissions_silences_example =
    set_permissions_silences (λ s. s) server no_input 11 (some (171 ∷ 205 ∷ [])) false refl refl
      refl

change_all-IsFew_example : IsFew (change_all server events).input_leases
change_all-IsFew_example = change_all-IsFew server events (omega arith)
