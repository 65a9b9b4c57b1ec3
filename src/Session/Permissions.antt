-- ===== src/Session/Permissions.antt =====
-- Permissions of daemon/internal/server/capabilities.go.
use phonepad.Base.{
  Bool, Bytes, [], ascii, bytes_eq, false, if◌then◌else◌, is_empty, not, one_of, ◌&&◌, ◌∷◌,
}

pub record Permission : Type 0 where
  pub state : Bytes
  pub reason : Bytes

pub record Permissions : Type 0 where
  pub view : Permission
  pub input : Permission
  pub files : Permission
  pub clipboard : Permission

-- mutationScopeInput and its fellows; `other` is any other string.
pub data Scope : Type 0 where
  input_scope files_scope clipboard_scope other_scope : Scope

abbrev pub granted : Bytes
granted = ascii "granted"

abbrev pub unavailable : Bytes
unavailable = ascii "unavailable"

unfoldable pub default_permissions : Bool → Permissions
default_permissions has_injector =
    let yes : Permission = record { state = granted; reason = [] } in
    record {
      view = yes;
      input =
          if has_injector
          then yes
          else record { state = unavailable; reason = ascii "provider_unavailable" };
      files = yes;
      clipboard = yes;
    }

unfoldable pub normalize_permission : Permission → Bytes → Permission
normalize_permission value fallback =
    if one_of value.state (granted ∷ ascii "revoked" ∷ unavailable ∷ [])
    then value
    else record { state = fallback; reason = ascii "invalid_permission_state" }

unfoldable pub normalize_permissions : Permissions → Permissions
normalize_permissions value = record {
  view = normalize_permission value.view unavailable;
  input = normalize_permission value.input unavailable;
  files = normalize_permission value.files unavailable;
  clipboard = normalize_permission value.clipboard unavailable;
}

abbrev pub is_granted : Permission → Bool
is_granted p = bytes_eq p.state granted

-- effectivePermissionsLocked: without a provider, or while a reset of the input is incomplete, a
-- granted input is unavailable.
unfoldable pub effective_permissions : Permissions → Bool → Bool → Permissions
effective_permissions ps has_injector reset_incomplete =
    if is_granted ps.input && not has_injector
    then record ps { input = record { state = unavailable; reason = ascii "provider_unavailable" } }
    else if is_granted ps.input && reset_incomplete
    then record ps {
      input = record { state = unavailable; reason = ascii "input_reset_incomplete" };
    }
    else ps

-- permissionLocked, of the effective permissions.
unfoldable pub permission_in : Permissions → Scope → Permission × Bool
permission_in ps input_scope = (ps.input, is_granted ps.input)
permission_in ps files_scope = (ps.files, is_granted ps.files)
permission_in ps clipboard_scope = (ps.clipboard, is_granted ps.clipboard)
permission_in ps other_scope =
    (record { state = ascii "unsupported"; reason = ascii "unknown_scope" }, false)

unfoldable pub permission_rejection_code : Permission → Bytes → Bytes
permission_rejection_code p fallback =
    if bytes_eq p.state (ascii "revoked")
    then ascii "permission_revoked"
    else if not (is_empty p.reason)
    then p.reason
    else fallback
