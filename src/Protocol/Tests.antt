-- ===== src/Protocol/Tests.antt =====
-- Concrete messages.
use phonepad.Base.{[], arith, ascii, bytes_eq, false, pos, refl, some, true, ◌≡◌}
use phonepad.Touchpad.Events.{new_mt_state, frame}
use phonepad.Touchpad.Frame.{Tracks}
use phonepad.Touchpad.Slots.{held}
use phonepad.Touchpad.Tests.{halves, two_fingers}
use phonepad.Protocol.Tokens.{valid_session_epoch, token_chars}
use phonepad.Protocol.Messages.{
  Msg, Decoder, parse, valid_msg, valid_touches, valid_contact, seen_id,
}
use phonepad.Protocol.Snapshots.{parse-Tracks}

abbrev snapshot : Msg halves
snapshot = record {
  type = ascii "t";
  pointer_fence = 0;
  session_epoch = ascii "epoch-1";
  dx = pos 0;
  dy = pos 0;
  action = [];
  button = [];
  text = [];
  key = [];
  mods = [];
  operation_id = [];
  phase = [];
  action_sequence = 0;
  name = [];
  touches = two_fingers;
  cancel = false;
}

-- A decoder that reads every frame as the snapshot.
abbrev decoder : Decoder halves
decoder = record {
  unmarshal = λ s. some snapshot;
  fields = λ s. some (λ key. some (ascii "[]"));
  trim_space = λ s. s;
  to_lower = λ s. s;
}

accepted : parse halves decoder (ascii "{}") ≡ some snapshot
unfolding parse valid_msg valid_touches valid_contact seen_id valid_session_epoch token_chars
    bytes_eq
accepted = refl

parse-Tracks_example :
    let s = new_mt_state (pos 4000) (pos 2800) in
    Tracks halves two_fingers s.slot_id (frame halves s two_fingers).1.slot_id
    × (false ≡ true → two_fingers ≡ [])
unfolding new_mt_state held
parse-Tracks_example =
    parse-Tracks halves decoder (ascii "{}") snapshot (new_mt_state (pos 4000) (pos 2800)) accepted
      refl (ground arith)
