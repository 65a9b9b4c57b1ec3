-- ===== src/Media/Epochs.antt =====
-- What the checks of daemon/internal/server/media.go make of the epochs of a source's geometry.
use phonepad.Base.{
  Bool-cases, Bytes, List, [], ap, arith, bytes_eq, bytes_eq_iff, eq_ℤ_iff, false, inl, inr,
  is_empty, leb, ltb, not, refl, subst, true, ℕ, ◌&&◌, ◌<◌, ◌==◌, ◌||◌, ◌∙◌, ◌∷◌, ◌≡◌,
}
use phonepad.Media.Snapshot.{
  MediaGeometry, MediaSnapshot, geometry_eq, is_available, valid_snapshot, valid_source,
}
use phonepad.Media.Log.{
  Event, IsFalling, IsRising, Log, answered, begins, connects, happen, run, told, told_next,
}
use phonepad.Media.Observe.{
  MediaObservation, observe_preview, reuses, known_after, new_media_observation, observe_media,
}

IsKnown : MediaGeometry → List MediaGeometry → Type 0
IsKnown g [] = is_available g.state ≡ false
IsKnown g (h ∷ gs) = (g ≡ h) × (is_available h.state ≡ true)

IsLast : ℕ → Log → Type 0
IsLast n [] = Unit
IsLast n ((n', s) ∷ log) = n ≡ n'

record Tracks (m : MediaObservation) (log : Log) : Type 0 where
  source : m.known_source ≡ (told log).0
  known : IsKnown m.known_geometry (told log).1
  rising : IsRising (told log).1
  falling : IsFalling log
  last : IsLast m.applied log

geometry_same : (g h : MediaGeometry) → geometry_eq g h ≡ true → g ≡ h
geometry_same g h e = ground (
  arith,
  bytes_eq_iff g.state h.state,
  bytes_eq_iff g.reason h.reason,
  eq_ℤ_iff g.width h.width,
  eq_ℤ_iff g.height h.height,
  eq_ℤ_iff g.encoded_width h.encoded_width,
  eq_ℤ_iff g.encoded_height h.encoded_height,
)

-- A geometry of the source that is known, after those that were told of it.
rises :
    (m : MediaObservation) (next : MediaSnapshot) (gs : List MediaGeometry)
    → is_empty next.source.id ≡ false
    → bytes_eq next.source.id m.known_source ≡ true
    → is_available next.geometry.state ≡ true
    → reuses m next ≡ false
    → IsKnown m.known_geometry gs
    → IsRising gs
    → IsRising (next.geometry ∷ gs)
unfolding IsKnown
rises m next [] named same there fine k r = tt
rises m next (h ∷ gs) named same there fine k r =
    let known : is_available m.known_geometry.state ≡ true =
      ap (λ g. is_available g.state) k.0 ∙ k.1 in
    (
      elim (Bool-cases (geometry_eq next.geometry m.known_geometry)) [
        | inl e ↦ inr (geometry_same next.geometry m.known_geometry e ∙ k.0)
        | inr e ↦
            let above =
              later next.geometry.epoch m.known_geometry.epoch
                (rw (named, same, known, there, e) at fine) in
            inl (subst (λ g. g.epoch < next.geometry.epoch) k.0 above)
      ],
      r,
    )
  where
    later : (n p : ℕ) → ltb n p || ((n == p) && true) ≡ false → p < n
    later n p f = ground arith

valid-named :
    (next : MediaSnapshot)
    → valid_snapshot next ≡ true
    → is_available next.source.state ≡ true
    → is_empty next.source.id ≡ false
unfolding valid_snapshot valid_source
valid-named next v e = ground arith

told_next-IsKnown :
    (m : MediaObservation) (next : MediaSnapshot) (gs : List MediaGeometry)
    → valid_snapshot next ≡ true
    → reuses m next ≡ false
    → IsKnown m.known_geometry gs
    → IsRising gs
    → let k = known_after m.known_source m.known_geometry next in
      let t = told_next m.known_source gs next in (k.0 ≡ t.0) × IsKnown k.1 t.1 × IsRising t.1
unfolding IsKnown bytes_eq
told_next-IsKnown m next gs valid fine known rising =
    elim (Bool-cases (is_available next.source.state)) [
      | inr e ↦ rw e (refl, known, rising)
      | inl e ↦
          let named = valid-named next valid e in
          rw e (elim (Bool-cases (is_available next.geometry.state)) [
            | inl f ↦ rw f (elim (Bool-cases (bytes_eq next.source.id m.known_source)) [
              | inl g ↦ rw g (refl, (refl, f), rises m next gs named g f fine known rising)
              | inr g ↦ rw g (refl, (refl, f), tt)
            ])
            | inr f ↦ rw f (elim (Bool-cases (bytes_eq next.source.id m.known_source)) [
              | inl g ↦ rw g (refl, known, rising)
              | inr g ↦ rw g (refl, refl, tt)
            ])
          ])
    ]

falls :
    (log : Log) (n sequence : ℕ) (next : MediaSnapshot)
    → IsLast n log
    → n < sequence
    → IsFalling log
    → IsFalling ((sequence, next) ∷ log)
unfolding IsLast
falls [] n sequence next e h f = tt
falls ((n', s) ∷ log) n sequence next e h f = (omega (arith, e), f)

applies-Tracks :
    (m m' : MediaObservation) (log : Log) (sequence : ℕ) (next : MediaSnapshot)
    → Tracks m log
    → valid_snapshot next ≡ true
    → m.applied < sequence
    → reuses m next ≡ false
    → m'.known_source ≡ (known_after m.known_source m.known_geometry next).0
    → m'.known_geometry ≡ (known_after m.known_source m.known_geometry next).1
    → m'.applied ≡ sequence
    → Tracks m' ((sequence, next) ∷ log)
unfolding IsLast
applies-Tracks m m' log sequence next t valid h fine e f l =
    let (source, known, rising) =
      told_next-IsKnown m next (told log).1 valid fine t.known t.rising in
    let same : told_next m.known_source (told log).1 next ≡ told ((sequence, next) ∷ log) =
      ap (λ id. told_next id (told log).1 next) t.source in
    record {
      source = e ∙ source ∙ ap (λ p. p.0) same;
      known = rw f (
          subst (λ p. IsKnown (known_after m.known_source m.known_geometry next).1 p.1) same known);
      rising = subst (λ p. IsRising p.1) same rising;
      falling = falls log m.applied sequence next t.last h t.falling;
      last = l;
    }

same-Tracks :
    (m m' : MediaObservation) (log : Log)
    → m'.known_source ≡ m.known_source
    → m'.known_geometry ≡ m.known_geometry
    → m'.applied ≡ m.applied
    → Tracks m log
    → Tracks m' log
same-Tracks m m' log e f l t = record {
  source = e ∙ t.source;
  known = rw f t.known;
  rising = t.rising;
  falling = t.falling;
  last = rw l t.last;
}

happen-Tracks :
    (m : MediaObservation) (log : Log) (e : Event)
    → Tracks m log
    → let out = happen m log e in Tracks out.0 out.1
unfolding happen observe_preview observe_media
happen-Tracks m log begins t = same-Tracks m _ log refl refl refl t
happen-Tracks m log (connects epoch) t = same-Tracks m _ log refl refl refl t
happen-Tracks m log (answered now sequence next epoch) t = elim (Bool-cases (valid_snapshot next)) [
  | inr v ↦ rw v t
  | inl v ↦ rw v (elim (Bool-cases (not (is_empty epoch) && not (bytes_eq epoch m.session_epoch))) [
    | inl e ↦ rw e t
    | inr e ↦ rw e (elim (Bool-cases (leb sequence m.applied)) [
      | inl f ↦ rw f t
      | inr f ↦ rw f (elim (Bool-cases (reuses m next)) [
        | inl g ↦ rw g t
        | inr g ↦ rw g (applies-Tracks m _ log sequence next t v (ground arith) g refl refl refl)
      ])
    ])
  ])
]

run-Tracks :
    (es : List Event) (m : MediaObservation) (log : Log)
    → Tracks m log
    → let out = run m log es in Tracks out.0 out.1
unfolding run
run-Tracks [] m log t = t
run-Tracks (e ∷ es) m log t =
    run-Tracks es (happen m log e).0 (happen m log e).1 (happen-Tracks m log e t)

-- Whatever answers of the screen's provider come in, late ones, repeated ones and those of other
-- connections among them: the numbers of those that are applied rise, and while the source stays the
-- same, the epochs of its geometry rise, and an epoch that comes again stands for the same
-- geometry.
pub run-IsRising :
    (epoch : Bytes) (es : List Event)
    → let log = (run (new_media_observation epoch) [] es).1 in IsFalling log × IsRising (told log).1
unfolding IsKnown bytes_eq IsLast
run-IsRising epoch es =
    let t =
      run-Tracks es (new_media_observation epoch) []
        (record { source = refl; known = refl; rising = tt; falling = tt; last = tt }) in
    (t.falling, t.rising)
