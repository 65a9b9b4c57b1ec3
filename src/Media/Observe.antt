-- ===== src/Media/Observe.antt =====
-- beginMediaObservation, observeMedia and mediaSnapshotLocked of daemon/internal/server/media.go.
use phonepad.Base.{
  Bool, Bytes, Option, [], ascii, bytes_eq, if◌then◌else◌, is_empty, leb, ltb, none, not, pos, some,
  ℕ, ◌%◌, ◌&&◌, ◌*◌, ◌+◌, ◌-◌, ◌==◌, ◌^◌, ◌||◌,
}
use phonepad.Media.Snapshot.{
  MediaGeometry, MediaSnapshot, geometry_eq, is_available, no_geometry, unknown_media, snapshot_eq,
  valid_snapshot,
}

-- mediaObservation with the two fields of Server that it is used with. Times are in nanoseconds, and
-- `observed` is `none` before the first answer.
pub record MediaObservation : Type 0 where
  pub next : ℕ
  pub applied : ℕ
  pub snapshot : MediaSnapshot
  pub observed : Option ℕ
  pub known_source : Bytes
  pub known_geometry : MediaGeometry
  pub session_epoch : Bytes
  pub capability_revision : ℕ

pub data Observed : Type 0 where
  invalid ignored reused applies : Observed

abbrev pub next_uint64 : ℕ → ℕ
next_uint64 n = (n + 1) % 2 ^ 64

abbrev pub begin_media_observation : MediaObservation → MediaObservation
begin_media_observation m = record m { next = next_uint64 m.next }

-- 30 seconds.
abbrev pub media_snapshot_ttl : ℕ
media_snapshot_ttl = 30 * 10 ^ 9

unfoldable pub media_snapshot : MediaObservation → ℕ → MediaSnapshot
unfolding unknown_media
media_snapshot m now = elim m.observed [
  | none ↦ unknown_media (ascii "query_preview_status")
  | some t ↦
      if ltb media_snapshot_ttl (now - t)
      then unknown_media (ascii "query_preview_status")
      else m.snapshot
]

-- The epoch of a geometry that is known goes back, or stands for another geometry.
abbrev pub reuses : MediaObservation → MediaSnapshot → Bool
reuses m next =
    let previous = m.known_geometry in
    not (is_empty next.source.id)
    && bytes_eq next.source.id m.known_source
    && is_available previous.state
    && is_available next.geometry.state
    && (ltb next.geometry.epoch previous.epoch
        || (next.geometry.epoch == previous.epoch && not (geometry_eq next.geometry previous)))

-- What is known of the source and its geometry after an answer that is applied.
abbrev pub known_after : Bytes → MediaGeometry → MediaSnapshot → Bytes × MediaGeometry
known_after source geometry next =
    let kept = if bytes_eq next.source.id source then geometry else no_geometry in
    if not (is_available next.source.state)
    then (source, geometry)
    else (next.source.id, if is_available next.geometry.state then next.geometry else kept)

unfoldable pub observe_media :
    MediaObservation → ℕ → ℕ → MediaSnapshot → Bytes → MediaObservation × Observed
observe_media m now sequence next epoch =
    let known = known_after m.known_source m.known_geometry next in
    if not (is_empty epoch) && not (bytes_eq epoch m.session_epoch)
    then (m, ignored)
    else if leb sequence m.applied
    then (m, ignored)
    else if reuses m next
    then (m, reused)
    else (
      record m {
        applied = sequence;
        snapshot = next;
        observed = some now;
        known_source = known.0;
        known_geometry = known.1;
        capability_revision =
            if snapshot_eq (media_snapshot m now) next
            then m.capability_revision
            else next_uint64 m.capability_revision;
      },
      applies,
    )

-- handlePreview with an answer of the provider that has a snapshot.
unfoldable pub observe_preview :
    MediaObservation → ℕ → ℕ → MediaSnapshot → Bytes → MediaObservation × Observed
observe_preview m now sequence next epoch =
    if not (valid_snapshot next) then (m, invalid) else observe_media m now sequence next epoch

abbrev pub new_media_observation : Bytes → MediaObservation
new_media_observation epoch = record {
  next = 0;
  applied = 0;
  snapshot = record {
    version = pos 0;
    source = record { state = []; id = []; kind = []; reason = [] };
    geometry = no_geometry;
    video = record { state = []; codecs = []; selected_codec = []; reason = [] };
  };
  observed = none;
  known_source = [];
  known_geometry = no_geometry;
  session_epoch = epoch;
  capability_revision = 0;
}
