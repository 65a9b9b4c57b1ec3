-- ===== src/Media/Tests.antt =====
-- Runs of the model of daemon/internal/server/media.go, and the theorems at them.
use phonepad.Base.{List, [], ascii, bytes_eq, pos, refl, ℕ, ℤ, ◌∷◌, ◌≡◌}
use phonepad.Media.Snapshot.{MediaSnapshot, valid_snapshot, valid_source}
use phonepad.Media.Observe.{new_media_observation, observe_media, observe_preview}
use phonepad.Protocol.Tokens.{valid_session_epoch, token_chars}
use phonepad.Media.Log.{Event, IsFalling, IsRising, answered, begins, happen, run, told}
use phonepad.Media.Epochs.{run-IsRising}

abbrev screen : ℕ → ℤ → MediaSnapshot
screen epoch width = record {
  version = pos 1;
  source = record { state = ascii "available"; id = ascii "dp-1"; kind = []; reason = [] };
  geometry = record {
    state = ascii "available";
    epoch = epoch;
    width = width;
    height = pos 1080;
    encoded_width = width;
    encoded_height = pos 1080;
    reason = [];
  };
  video = record {
    state = ascii "available";
    codecs = ascii "H264" ∷ [];
    selected_codec = ascii "H264";
    reason = [];
  };
}

-- An answer, a late one, one that gives the epoch another width, and the next epoch.
abbrev answers : List Event
answers =
    begins
    ∷ answered 5 2 (screen 3 (pos 1920)) []
    ∷ answered 6 1 (screen 4 (pos 1920)) []
    ∷ answered 7 3 (screen 3 (pos 1280)) []
    ∷ answered 8 4 (screen 4 (pos 1280)) []
    ∷ []

answers-told :
    (told (run (new_media_observation []) [] answers).1).1
    ≡ (screen 4 (pos 1280)).geometry ∷ (screen 3 (pos 1920)).geometry ∷ []
unfolding run happen observe_preview observe_media valid_snapshot valid_source valid_session_epoch
    token_chars bytes_eq
answers-told = refl

run-IsRising_example :
    let log = (run (new_media_observation []) [] answers).1 in IsFalling log × IsRising (told log).1
run-IsRising_example = run-IsRising [] answers
