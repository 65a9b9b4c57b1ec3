-- ===== src/Media/Log.antt =====
-- The life of the observation of daemon/internal/server/media.go, with the answers that it applied.
use phonepad.Base.{Bytes, List, [], bytes_eq, if◌then◌else◌, not, ℕ, ◌<◌, ◌∷◌, ◌≡◌, ◌⊎◌}
use phonepad.Media.Snapshot.{MediaGeometry, MediaSnapshot, is_available}
use phonepad.Media.Observe.{
  MediaObservation, Observed, applies, begin_media_observation, observe_preview,
}

-- What happens to the observation.
pub data Event : Type 0 where
  begins : Event
  connects : Bytes → Event
  answered : ℕ → ℕ → MediaSnapshot → Bytes → Event

-- The answers that were applied, with their sequences, newest first.
abbrev pub Log : Type 0
Log = List (ℕ × MediaSnapshot)

abbrev pub logged : Observed → ℕ → MediaSnapshot → Log → Log
logged applies sequence next log = (sequence, next) ∷ log
logged _ sequence next log = log

unfoldable pub happen : MediaObservation → Log → Event → MediaObservation × Log
happen m log begins = (begin_media_observation m, log)
happen m log (connects epoch) = (record m { session_epoch = epoch }, log)
happen m log (answered now sequence next epoch) =
    let (m', o) = observe_preview m now sequence next epoch in (m', logged o sequence next log)

unfoldable pub run : MediaObservation → Log → List Event → MediaObservation × Log
run m log [] = (m, log)
run m log (e ∷ es) = let (m', log') = happen m log e in run m' log' es

-- The source that an answer names last, and the geometries that were given for it since it came,
-- newest first.
abbrev pub told_next : Bytes → List MediaGeometry → MediaSnapshot → Bytes × List MediaGeometry
told_next id gs s =
    let gs' = if bytes_eq s.source.id id then gs else [] in
    if not (is_available s.source.state)
    then (id, gs)
    else (s.source.id, if is_available s.geometry.state then s.geometry ∷ gs' else gs')

abbrev pub told : Log → Bytes × List MediaGeometry
told [] = ([], [])
told ((sequence, s) ∷ log) = told_next (told log).0 (told log).1 s

-- Epochs rise, and one that comes again stands for the same geometry.
abbrev pub IsRising : List MediaGeometry → Type 0
IsRising [] = Unit
IsRising (g ∷ []) = Unit
IsRising (g ∷ h ∷ gs) = ((h.epoch < g.epoch) ⊎ (g ≡ h)) × IsRising (h ∷ gs)

-- The number of each answer is above that of the one before it.
abbrev pub IsFalling : Log → Type 0
IsFalling [] = Unit
IsFalling ((n, s) ∷ []) = Unit
IsFalling ((n, s) ∷ (n', s') ∷ log) = (n' < n) × IsFalling ((n', s') ∷ log)
