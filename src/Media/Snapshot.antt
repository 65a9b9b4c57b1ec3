-- ===== src/Media/Snapshot.antt =====
-- mediaSnapshot of daemon/internal/server/media.go with the checks of its values. Go's int and uint64
-- are ℤ and ℕ here; nothing is added up.
use phonepad.Base.{
  Bool, Bytes, List, [], ascii, bytes_eq, eq_ℤ, false, if◌then◌else◌, is_empty, leb, leb_ℤ, length,
  not, one_of, pos, true, ℕ, ℤ, ◌&&◌, ◌-◌, ◌==◌, ◌^◌, ◌||◌, ◌∷◌,
}
use phonepad.Protocol.Tokens.{valid_session_epoch}

pub record MediaSource : Type 0 where
  pub state : Bytes
  pub id : Bytes
  pub kind : Bytes
  pub reason : Bytes

pub record MediaGeometry : Type 0 where
  pub state : Bytes
  pub epoch : ℕ
  pub width : ℤ
  pub height : ℤ
  pub encoded_width : ℤ
  pub encoded_height : ℤ
  pub reason : Bytes

pub record MediaVideo : Type 0 where
  pub state : Bytes
  pub codecs : List Bytes
  pub selected_codec : Bytes
  pub reason : Bytes

pub record MediaSnapshot : Type 0 where
  pub version : ℤ
  pub source : MediaSource
  pub geometry : MediaGeometry
  pub video : MediaVideo

abbrev pub is_available : Bytes → Bool
is_available state = bytes_eq state (ascii "available")

-- `mediaGeometry{}`
abbrev pub no_geometry : MediaGeometry
no_geometry = record {
  state = [];
  epoch = 0;
  width = pos 0;
  height = pos 0;
  encoded_width = pos 0;
  encoded_height = pos 0;
  reason = [];
}

-- Go's `==` on mediaGeometry.
abbrev pub geometry_eq : MediaGeometry → MediaGeometry → Bool
geometry_eq g h =
    bytes_eq g.state h.state
    && g.epoch == h.epoch
    && eq_ℤ g.width h.width
    && eq_ℤ g.height h.height
    && eq_ℤ g.encoded_width h.encoded_width
    && eq_ℤ g.encoded_height h.encoded_height
    && bytes_eq g.reason h.reason

codecs_eq : List Bytes → List Bytes → Bool
codecs_eq [] [] = true
codecs_eq (c ∷ cs) (d ∷ ds) = bytes_eq c d && codecs_eq cs ds
codecs_eq _ _ = false

-- reflect.DeepEqual; a snapshot that passes the checks has no empty list of codecs that is not nil.
unfoldable pub snapshot_eq : MediaSnapshot → MediaSnapshot → Bool
unfolding codecs_eq
snapshot_eq a b =
    eq_ℤ a.version b.version
    && bytes_eq a.source.state b.source.state
    && bytes_eq a.source.id b.source.id
    && bytes_eq a.source.kind b.source.kind
    && bytes_eq a.source.reason b.source.reason
    && geometry_eq a.geometry b.geometry
    && bytes_eq a.video.state b.video.state
    && codecs_eq a.video.codecs b.video.codecs
    && bytes_eq a.video.selected_codec b.video.selected_codec
    && bytes_eq a.video.reason b.video.reason

unfoldable pub unknown_media : Bytes → MediaSnapshot
unknown_media why = record {
  version = pos 1;
  source = record { state = ascii "unknown"; id = []; kind = []; reason = why };
  geometry = record no_geometry { state = ascii "unknown"; reason = why };
  video = record { state = ascii "unknown"; codecs = []; selected_codec = []; reason = why };
}

valid_media_state : Bytes → Bool
valid_media_state state =
    one_of state (ascii "available" ∷ ascii "unavailable" ∷ ascii "unknown" ∷ [])

abbrev valid_dimension : ℤ → Bool
valid_dimension d = leb_ℤ (pos 1) d && leb_ℤ d (pos 32768)

unfoldable pub valid_source : MediaSource → Bool
valid_source s =
    if is_available s.state then not (is_empty s.id) && valid_session_epoch s.id else is_empty s.id

valid_geometry : MediaSource → MediaGeometry → Bool
valid_geometry s g =
    if is_available g.state
    then is_available s.state
      && leb 1 g.epoch
      && leb g.epoch (2 ^ 53 - 1)
      && valid_dimension g.width
      && valid_dimension g.height
      && valid_dimension g.encoded_width
      && valid_dimension g.encoded_height
    else g.epoch == 0
      && eq_ℤ g.width (pos 0)
      && eq_ℤ g.height (pos 0)
      && eq_ℤ g.encoded_width (pos 0)
      && eq_ℤ g.encoded_height (pos 0)

codec_chars : Bytes → Bool
codec_chars [] = true
codec_chars (c ∷ s) = ((leb b'A' c && leb c b'Z') || (leb b'0' c && leb c b'9')) && codec_chars s

-- ^[A-Z0-9]{2,16}$, and no codec twice.
valid_codecs : List Bytes → List Bytes → Bool
unfolding codec_chars
valid_codecs seen [] = true
valid_codecs seen (c ∷ cs) =
    leb 2 (length c)
    && leb (length c) 16
    && codec_chars c
    && not (one_of c seen)
    && valid_codecs (c ∷ seen) cs

valid_video : MediaVideo → Bool
unfolding valid_codecs
valid_video v =
    leb (length v.codecs) 8
    && (if is_available v.state
        then not (length v.codecs == 0)
        else length v.codecs == 0 && is_empty v.selected_codec)
    && valid_codecs [] v.codecs
    && (is_empty v.selected_codec || one_of v.selected_codec v.codecs)

-- parseMediaSnapshot, for a document that decodes and that names no field where it may not stand.
unfoldable pub valid_snapshot : MediaSnapshot → Bool
unfolding valid_media_state valid_geometry valid_video
valid_snapshot v =
    eq_ℤ v.version (pos 1)
    && valid_media_state v.source.state
    && valid_media_state v.geometry.state
    && valid_media_state v.video.state
    && leb (length v.source.reason) 128
    && leb (length v.geometry.reason) 128
    && leb (length v.video.reason) 128
    && leb (length v.source.kind) 32
    && valid_source v.source
    && valid_geometry v.source v.geometry
    && valid_video v.video
