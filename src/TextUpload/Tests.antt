-- ===== src/TextUpload/Tests.antt =====
-- The theorems on uploads at a concrete request: the commit of a text of two chunks.
use phonepad.Base.{
  Bytes, List, Option, [], arith, ascii, bytes_eq, false, get, if◌then◌else◌, length, none, pos,
  refl, some, suc, true, zero, ℕ, ◌%◌, ◌++◌, ◌==◌, ◌∷◌, ◌≡◌,
}
use phonepad.Protocol.Tokens.{valid_session_epoch, token_chars}
use phonepad.TextOps.Hex.{hex_encode, hex_decode}
use phonepad.TextOps.Utf8.{utf8_valid}
use phonepad.TextOps.Manifest.{Manifest, valid_id, manifest_eq, valid_manifest}
use phonepad.TextOps.Transfer.{append, claim, commit, has_nul, new_transfer, finish}
use phonepad.TextOps.Transfer.History.{appends, step}
use phonepad.TextOps.Registry.{
  Registry, begins, Request, calls, run_registry, begin, find, lookup, new_registry, released_for,
  serve, update,
}
use phonepad.Session.Permissions.{
  default_permissions, input_scope, effective_permissions, permission_in, Permissions,
}
use phonepad.Session.Leases.{InputLease}
use phonepad.Session.State.{
  ServerState, holds, MutationPermit, capture_mutation_permit, change_all, run_lifecycle_mutation,
  change, permits, set_permissions,
}
use phonepad.TextUpload.Request.{UploadRequest, Answer, HttpRequest, admit}
use phonepad.TextUpload.World.{
  World, Dispatch, Others, hold, ask, literal_clipboard_allowed, meet, transfer_of,
  bounded_literal_text,
}
use phonepad.TextUpload.Handler.{Adapter, handle_input, serve_admitted}
use phonepad.TextOps.Transfer.Release.{IsText}
use phonepad.TextUpload.Commit.{
  commit_begun, dispatch_claimed, dispatch_ready, dispatch_text, finish_dispatch, upload_begun,
  upload_step, with_transfer,
}
use phonepad.TextUpload.Once.{upload_once, upload_revoked}
use phonepad.TextUpload.Dispatch.{until_gate}
use phonepad.Session.Permits.{effective}

abbrev zeros : ℕ → Bytes
zeros zero = []
zeros (suc n) = 0 ∷ zeros n

abbrev toy_sum : Bytes → Bytes
toy_sum s = length s % 256 ∷ zeros 31

abbrev note : Manifest
unfolding hex_encode
note = record {
  version = pos 1;
  operation_id = ascii "op-1";
  session = ascii "s_1";
  context = ascii "field";
  sequence = 7;
  bytes = pos 4;
  sha256 = hex_encode (toy_sum (ascii "abab"));
}

abbrev fresh : Registry
fresh = record { session = ascii "s_1"; operations = []; highest = 0 }

abbrev staged : List Request
staged =
    begins note
    ∷ calls (ascii "op-1") (appends (pos 0) (ascii "ab"))
    ∷ calls (ascii "op-1") (appends (pos 1) (ascii "ab"))
    ∷ []

abbrev lease : InputLease
lease = record {
  registry = run_registry toy_sum fresh staged;
  created = 5;
  retired = none;
  targets = (ascii "op-1", zeros 64) ∷ [];
}

abbrev server : ServerState
server = record {
  permissions = default_permissions true;
  has_injector = true;
  input_reset_incomplete = false;
  permission_revision = 4;
  capability_revision = 9;
  gen = 2;
  session_epoch = ascii "e1";
  current = some 1;
  current_protocol = 2;
  input_session = ascii "s_1";
  input_leases = (ascii "s_1", lease) ∷ [];
  lifecycle_closing = false;
}

abbrev question : UploadRequest
question = record {
  op = ascii "commit";
  session = ascii "s_1";
  session_epoch = ascii "e1";
  operation_id = ascii "op-1";
  manifest = note;
  index = pos 0;
  bytes = [];
}

abbrev posted : HttpRequest
posted = record {
  authorised = true;
  is_post = true;
  same_origin = true;
  is_json = true;
  body = some question;
}

abbrev types_it : Adapter
types_it = record {
  focus = none;
  insert =
      λ text target. some (record { state = ascii "dispatched"; detail = []; target = target });
}

abbrev nobody : ℕ → Others
nobody n = record { changes = []; requests = []; bindings = [] }

abbrev world_or : Option World → World
world_or none = hold server lease
world_or (some w) = w

handled : ServerState × Option World × Answer
handled = handle_input toy_sum nobody server posted 30 none (some types_it)

abbrev sent : Dispatch
sent = record { text = ascii "abab"; target = zeros 64; gate = server; asked = server }

handled_some : handled.1 ≡ some (world_or handled.1)
unfolding handled handle_input admit serve_admitted valid_session_epoch token_chars
    capture_mutation_permit permission_in effective_permissions default_permissions bytes_eq get
handled_some = refl

handled_sends : (world_or handled.1).dispatched ≡ sent ∷ []
unfolding handled handle_input admit serve_admitted valid_session_epoch token_chars
    capture_mutation_permit permission_in effective_permissions default_permissions bytes_eq get
    upload_step upload_begun with_transfer commit_begun dispatch_ready dispatch_claimed
    dispatch_text finish_dispatch meet ask transfer_of run_registry serve step begin append commit
    claim lookup find update valid_manifest valid_id hex_decode hex_encode note utf8_valid has_nul
    manifest_eq change_all run_lifecycle_mutation holds literal_clipboard_allowed new_transfer
    finish bounded_literal_text
handled_sends = refl

upload_once_example :
    (◌≡◌ {A = List Dispatch} [] [])
    × ((permit : MutationPermit) × (capture_mutation_permit server input_scope ≡ some permit)
        × (run_lifecycle_mutation server permit ≡ none))
    × (literal_clipboard_allowed server (zeros 64) ≡ true)
    × ((m : Manifest) × (m.operation_id ≡ ascii "op-1")
        × (m.session ≡ ascii "s_1")
        × IsText toy_sum m (ascii "abab"))
    × (released_for toy_sum (ascii "op-1") fresh (staged ++ ((world_or handled.1).requests ++ []))
        ≡ ascii "abab" ∷ [])
unfolding new_registry valid_id get bytes_eq handled
upload_once_example =
    upload_once toy_sum nobody server posted question 30 none (some types_it) (world_or handled.1)
      sent [] lease fresh staged [] refl refl refl refl handled_some handled_sends

-- The input is revoked before the text is claimed.
abbrev revoked_input : Permissions
revoked_input = record (default_permissions true) {
  input = record { state = ascii "revoked"; reason = [] };
}

abbrev revoking : ℕ → Others
revoking n = record {
  changes = if n == 4 then permits revoked_input 20 none false ∷ [] else [];
  requests = [];
  bindings = [];
}

stopped : ServerState × Option World × Answer
stopped = handle_input toy_sum revoking server posted 30 none (some types_it)

stopped_some : stopped.1 ≡ some (world_or stopped.1)
unfolding stopped handle_input admit serve_admitted valid_session_epoch token_chars
    capture_mutation_permit permission_in effective_permissions default_permissions bytes_eq get
stopped_some = refl

one_change : effective server (until_gate toy_sum revoking 5 []) ≡ 1
unfolding effective change set_permissions default_permissions bytes_eq
one_change = refl

upload_revoked_example : (world_or stopped.1).dispatched ≡ []
unfolding new_registry valid_id get bytes_eq stopped
upload_revoked_example =
    upload_revoked toy_sum revoking server posted question 30 none (some types_it)
      (world_or stopped.1) lease fresh staged refl refl refl refl stopped_some (omega arith)
      (omega (arith, one_change)) (omega (arith, one_change))
