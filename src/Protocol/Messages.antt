-- ===== src/Protocol/Messages.antt =====
-- Msg, validMsg and Parse of daemon/internal/server/protocol.go.
pub mod Checked
use phonepad.Base.{
  Bool, Bytes, List, Option, [], ascii, bytes_eq, eq_ℤ, false, if◌then◌else◌, is_empty, leb_ℤ,
  length, ltb, ltb_ℤ, map, none, not, one_of, pos, some, true, ℕ, ℤ, ◌&&◌, ◌*◌, ◌==◌, ◌^◌, ◌||◌,
  ◌∷◌,
}
use phonepad.Protocol.Tokens.{
  valid_session_epoch, valid_operation_id, valid_phase, abs_bound, valid_special, valid_combo_key,
}
use phonepad.Floats.{FloatOps}
use phonepad.TextOps.Utf8.{utf8_valid}
use phonepad.Touchpad.Events.{Contact}

abbrev max_frame_bytes : ℕ
max_frame_bytes = 64 * 1024

abbrev max_text_bytes : ℕ
max_text_bytes = 8 * 1024

abbrev max_name_bytes : ℕ
max_name_bytes = 64

abbrev pub max_contacts : ℕ
max_contacts = 5

abbrev pub max_mods : ℕ
max_mods = 4

abbrev max_delta : ℕ
max_delta = 10000

abbrev max_scroll : ℕ
max_scroll = 1000

unfoldable pub seen_string : Bytes → List Bytes → Bool
seen_string s [] = false
seen_string s (t ∷ ts) = bytes_eq t s || seen_string s ts

unfoldable pub seen_id : ℤ → List ℤ → Bool
seen_id i [] = false
seen_id i (j ∷ js) = eq_ℤ j i || seen_id i js

abbrev null_text : Bytes
null_text = ascii "null"

module _ (fl : FloatOps) where
  open fl use {Float, less, zero_point, one, is_nan, is_inf}

  pub record Msg : Type 0 where
    pub type : Bytes
    pub pointer_fence : ℕ
    pub session_epoch : Bytes
    pub dx : ℤ
    pub dy : ℤ
    pub action : Bytes
    pub button : Bytes
    pub text : Bytes
    pub key : Bytes
    pub mods : List Bytes
    pub operation_id : Bytes
    pub phase : Bytes
    pub action_sequence : ℕ
    pub name : Bytes
    pub touches : List (Contact fl)
    pub cancel : Bool

  -- encoding/json, bytes.TrimSpace and strings.ToLower. `fields` gives the raw value of a key of an
  -- object.
  pub record Decoder : Type 0 where
    pub unmarshal : Bytes → Option Msg
    pub fields : Bytes → Option (Bytes → Option Bytes)
    pub trim_space : Bytes → Bytes
    pub to_lower : Bytes → Bytes

  unfoldable pub valid_contact : Contact fl → Bool
  valid_contact c = not (
      ltb_ℤ c.id (pos 0)
      || ltb_ℤ (pos (2 ^ 30)) c.id
      || is_nan c.x
      || is_nan c.y
      || is_inf c.x
      || is_inf c.y
      || less c.x zero_point
      || less one c.x
      || less c.y zero_point
      || less one c.y)

  -- The loop over the touches, with the identifiers seen so far.
  unfoldable pub valid_touches : List ℤ → List (Contact fl) → Bool
  valid_touches seen [] = true
  valid_touches seen (c ∷ cs) =
      let rest = valid_touches (c.id ∷ seen) cs in
      if not (valid_contact c) then false else if seen_id c.id seen then false else rest

  valid_frame : Msg → Bool
  valid_frame m =
      if m.cancel && not (length m.touches == 0)
      then false
      else if ltb max_contacts (length m.touches)
      then false
      else valid_touches [] m.touches

  valid_gesture : Msg → Bool
  valid_gesture m =
      if not (utf8_valid m.name) || length m.name == 0 || ltb max_name_bytes (length m.name)
      then false
      else one_of m.name (
          ascii "overview"
          ∷ ascii "apps"
          ∷ ascii "ws-left"
          ∷ ascii "ws-right"
          ∷ ascii "zoom-in"
          ∷ ascii "zoom-out"
          ∷ [])

  valid_pointer : Msg → Bool
  valid_pointer m =
      leb_ℤ (pos 0) m.dx && leb_ℤ m.dx (pos 65535) && leb_ℤ (pos 0) m.dy && leb_ℤ m.dy (pos 65535)

  valid_button : Msg → Bool
  valid_button m =
      one_of m.action (ascii "down" ∷ ascii "up" ∷ [])
      && one_of m.button (ascii "l" ∷ ascii "r" ∷ ascii "m" ∷ [])

  module _ (to_lower : Bytes → Bytes) where
    unfoldable pub valid_mod : Bytes → Bool
    valid_mod m =
        one_of (to_lower m) (ascii "ctrl" ∷ ascii "alt" ∷ ascii "super" ∷ ascii "shift" ∷ [])

    -- The loop over the modifiers, with those seen so far.
    unfoldable pub valid_mods : List Bytes → List Bytes → Bool
    valid_mods seen [] = true
    valid_mods seen (mod_key ∷ ms) =
        let rest = valid_mods (mod_key ∷ seen) ms in
        if not (valid_mod mod_key) then false else if seen_string mod_key seen then false else rest

    valid_combo : Msg → Bool
    valid_combo m =
        if ltb max_mods (length m.mods) || length m.key == 0 || not (valid_combo_key m.key)
        then false
        else valid_mods [] m.mods

    valid_press : Msg → Bool
    unfolding valid_combo
    valid_press m =
        if bytes_eq m.phase (ascii "cancel") || not (is_empty m.phase) && is_empty m.operation_id
        then false
        else if bytes_eq m.phase (ascii "repeat") && m.action_sequence == 0
        then false
        else if not (bytes_eq m.phase (ascii "repeat")) && ltb 1 m.action_sequence
        then false
        else if bytes_eq m.action (ascii "special")
        then valid_special m.key
        else valid_combo m

    valid_key : Msg → Bool
    unfolding valid_press
    valid_key m =
        if not
          (one_of m.action (ascii "text" ∷ ascii "special" ∷ ascii "combo" ∷ ascii "cancel" ∷ []))
        then false
        else if not (valid_operation_id m.operation_id) || not (valid_phase m.phase)
        then false
        else if bytes_eq m.action (ascii "cancel")
        then not (is_empty m.operation_id)
          && (is_empty m.phase || bytes_eq m.phase (ascii "cancel"))
          && m.action_sequence == 0
          && is_empty m.text
          && is_empty m.key
          && length m.mods == 0
        else if not (utf8_valid m.text)
            || not (utf8_valid m.key)
            || ltb max_text_bytes (length m.text)
            || ltb max_name_bytes (length m.key)
        then false
        else if bytes_eq m.action (ascii "text")
        then is_empty m.operation_id && is_empty m.phase && m.action_sequence == 0
        else valid_press m

    -- The switch on the type.
    valid_body : Msg → Bool
    unfolding valid_pointer valid_button valid_key valid_gesture valid_frame
    valid_body m =
        if bytes_eq m.type (ascii "p")
        then valid_pointer m
        else if bytes_eq m.type (ascii "m")
        then abs_bound m.dx max_delta && abs_bound m.dy max_delta
        else if bytes_eq m.type (ascii "b")
        then valid_button m
        else if bytes_eq m.type (ascii "s")
        then abs_bound m.dx max_scroll && abs_bound m.dy max_scroll
        else if bytes_eq m.type (ascii "k")
        then valid_key m
        else if bytes_eq m.type (ascii "g")
        then valid_gesture m
        else if bytes_eq m.type (ascii "t")
        then valid_frame m
        else true

    unfoldable pub valid_msg : Msg → Bool
    unfolding valid_body
    valid_msg m =
        if ltb (2 ^ 30) m.pointer_fence
          || not (m.pointer_fence == 0) && not (bytes_eq m.type (ascii "ping"))
        then false
        else if not (valid_session_epoch m.session_epoch)
        then false
        else valid_body m

  module _ (d : Decoder) where
    open d use {unmarshal, fields, trim_space, to_lower}

    -- A frame of contacts must carry its list, and not as null.
    has_contacts : Bytes → Bool
    has_contacts bytes = elim (fields bytes) [
      | none ↦ false
      | some field ↦ elim (field (ascii "c")) [
        | none ↦ false
        | some raw ↦ not (bytes_eq (trim_space raw) null_text)
      ]
    ]

    abbrev lowered : Msg → Msg
    lowered m =
        if bytes_eq m.type (ascii "k") && bytes_eq m.action (ascii "combo")
        then record m { mods = map to_lower m.mods }
        else m

    checked : Msg → Option Msg
    checked m = if not (valid_msg to_lower m) then none else some m

    parse_fields : Bytes → Msg → Option Msg
    unfolding has_contacts checked
    parse_fields bytes m =
        if is_empty m.type
        then none
        else if m.cancel && not (bytes_eq m.type (ascii "t"))
        then none
        else if bytes_eq m.type (ascii "t") && not (has_contacts bytes)
        then none
        else checked (lowered m)

    unfoldable pub parse : Bytes → Option Msg
    unfolding parse_fields
    parse bytes =
        if length bytes == 0 || ltb max_frame_bytes (length bytes)
        then none
        else elim (unmarshal bytes) [ none ↦ none | some m ↦ parse_fields bytes m ]
