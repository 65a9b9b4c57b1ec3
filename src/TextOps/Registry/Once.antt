-- ===== src/TextOps/Registry/Once.antt =====
-- What a registry releases over its whole life, and what it answers to a repeated manifest.
use phonepad.Base.{
  All, Bool-cases, Bytes, List, Option-cases, [], ap, arith, bytes_eq, bytes_eq_iff, false,
  if◌then◌else◌, inl, inr, none, not, refl, some, subst, ◌||◌, ◌∙◌, ◌∷◌, ◌≡◌, ◌⊎◌,
}
use phonepad.TextOps.Manifest.{Manifest, valid_manifest, manifest_eq}
use phonepad.TextOps.Transfer.{TextTransfer, conflict, invalid, retire_transfer}
use phonepad.TextOps.Transfer.History.{Call, step, run}
use phonepad.TextOps.Transfer.Invariant.{is_staged}
use phonepad.TextOps.Transfer.Release.{IsText, released-AtMostOne, released_spent, step-manifest}
use phonepad.TextOps.Registry.{
  Operations, Registry, Request, begins, calls, retires_all, new_registry, find, begin, admit,
  retire, serve, run_registry, released_for, emit_of, released_by,
}
use phonepad.TextOps.Registry.Known.{project, released_for-known, find-known, find-retire_all}
use phonepad.TextOps.Registry.Invariant.{IsRegistry, IsEntry, serve-IsRegistry}

pub find-IsEntry :
    (sum256 : Bytes → Bytes) (session id : Bytes) (ops : Operations) (t : TextTransfer)
    → All (IsEntry sum256 session) ops
    → find id ops ≡ some t
    → IsEntry sum256 session (id, t)
unfolding find
find-IsEntry sum256 session id [] t v h = ground arith
find-IsEntry sum256 session id ((k, u) ∷ ops) t v h = elim (Bool-cases (bytes_eq k id)) [
  | inl same ↦
      let e : ((k, u) ≡ (id, t)) = ground (arith, bytes_eq_iff k id) in
      subst (IsEntry sum256 session) e v.0
  | inr other ↦ find-IsEntry sum256 session id ops t v.1 (rw other at h)
]

module _ (sum256 : Bytes → Bytes) where
  -- At most one text, and a text that a manifest of this session and identifier announces.
  abbrev pub AtMostOneOf : Bytes → Bytes → List Bytes → Type 0
  AtMostOneOf session id texts =
      (texts ≡ [])
      ⊎ ((m : Manifest) × (text : Bytes) × (texts ≡ text ∷ [])
          × (m.operation_id ≡ id)
          × (m.session ≡ session)
          × IsText sum256 m text)

  known-AtMostOneOf :
      (r : Registry) (qs : List Request) (id : Bytes) (t : TextTransfer)
      → IsRegistry sum256 r
      → find id r.operations ≡ some t
      → AtMostOneOf r.session id (released_for sum256 id r qs)
  known-AtMostOneOf r qs id t v h =
      let entry = find-IsEntry sum256 r.session id r.operations t v.entries h in
      rw (released_for-known sum256 qs r id t h)
        (elim (released-AtMostOne sum256 t (project id qs) entry.sound) [
          | inl nothing ↦ inl nothing
          | inr (text, only, good) ↦ inr (t.manifest, text, only, entry.named, entry.bound, good)
        ])

  -- A request about an unknown operation releases nothing for it.
  unknown_quiet :
      (r : Registry) (q : Request) (id : Bytes) (rest : List Bytes)
      → find id r.operations ≡ none
      → emit_of id (serve sum256 r q).1 rest ≡ rest
  unfolding serve released_by
  unknown_quiet r (begins m) id rest h = refl
  unknown_quiet r (calls key c) id rest h = elim (Bool-cases (bytes_eq key id)) [
    | inl same ↦
        let e = (bytes_eq_iff key id).0 same in ground (arith, ap (λ k. find k r.operations) e)
    | inr other ↦ ground arith
  ]
  unknown_quiet r retires_all id rest h = refl

  serve-session : (r : Registry) (q : Request) → (serve sum256 r q).0.session ≡ r.session
  unfolding serve begin admit retire
  serve-session r (begins m) = ground arith
  serve-session r (calls key c) = refl
  serve-session r retires_all = refl

  released_for-AtMostOneOf :
      (qs : List Request) (r : Registry) (id : Bytes)
      → IsRegistry sum256 r
      → AtMostOneOf r.session id (released_for sum256 id r qs)
  unfolding released_for
  released_for-AtMostOneOf [] r id v = inl refl
  released_for-AtMostOneOf (q ∷ qs) r id v = elim (Option-cases (find id r.operations)) [
    | inl unknown ↦
        rw (unknown_quiet r q id (released_for sum256 id (serve sum256 r q).0 qs) unknown) (
          subst (λ s. AtMostOneOf s id (released_for sum256 id (serve sum256 r q).0 qs))
            (serve-session r q)
            (released_for-AtMostOneOf qs (serve sum256 r q).0 id (serve-IsRegistry sum256 r q v)))
    | inr (t, known) ↦ known-AtMostOneOf r (q ∷ qs) id t v known
  ]

  pub new_registry_sound :
      (session : Bytes) (r : Registry)
      → new_registry session ≡ some r
      → IsRegistry sum256 r × (r.session ≡ session)
  unfolding new_registry
  new_registry_sound session r h = ground arith

  -- Over any history of a registry made for a session, with beginnings, retries, commits, claims and
  -- retirements in any order, an operation releases at most one text, and it is a text that a
  -- manifest of that session and identifier announces.
  pub new_registry-AtMostOneOf :
      (session : Bytes) (r : Registry) (qs : List Request) (id : Bytes)
      → new_registry session ≡ some r
      → AtMostOneOf session id (released_for sum256 id r qs)
  new_registry-AtMostOneOf session r qs id h =
      let (sound, same) = new_registry_sound session r h in
      subst (λ s. AtMostOneOf s id (released_for sum256 id r qs)) same
        (released_for-AtMostOneOf qs r id sound)

  retire_transfer_spent : (t : TextTransfer) → is_staged (retire_transfer t).state ≡ false
  unfolding retire_transfer
  retire_transfer_spent t = ground arith

  find-retire :
      (r : Registry) (id : Bytes) (t : TextTransfer)
      → find id r.operations ≡ some t
      → find id (retire r).operations ≡ some (retire_transfer t)
  unfolding retire
  find-retire r id t h = rw (find-retire_all id r.operations) (rw h)

  -- Once a registry is retired, no history makes a known operation release a text.
  retire_silences :
      (r : Registry) (qs : List Request) (id : Bytes) (t : TextTransfer)
      → find id r.operations ≡ some t
      → released_for sum256 id (retire r) qs ≡ []
  retire_silences r qs id t h =
      released_for-known sum256 qs (retire r) id (retire_transfer t) (find-retire r id t h)
      ∙ released_spent sum256 (retire_transfer t) (project id qs) (retire_transfer_spent t)

  run-manifest : (t : TextTransfer) (cs : List Call) → (run sum256 t cs).manifest ≡ t.manifest
  unfolding run
  run-manifest t [] = refl
  run-manifest t (c ∷ cs) = run-manifest (step sum256 t c).0 cs ∙ step-manifest sum256 t c

  pub run_registry-session :
      (r : Registry) (qs : List Request) → (run_registry sum256 r qs).session ≡ r.session
  unfolding run_registry
  run_registry-session r [] = refl
  run_registry-session r (q ∷ qs) = run_registry-session (serve sum256 r q).0 qs ∙ serve-session r q

  -- A manifest that names an operation on record is answered by the record alone, at any later time:
  -- one that is not valid or is of another session is refused as invalid, the same manifest is
  -- accepted again, any other one is a conflict, and none of them changes a thing.
  pub begin_again :
      (r : Registry) (t : TextTransfer) (m : Manifest) (qs : List Request)
      → find m.operation_id r.operations ≡ some t
      → let later = run_registry sum256 r qs in
        begin later m ≡ (
          later,
          (if not (valid_manifest m) || not (bytes_eq m.session r.session)
              then some invalid
              else if manifest_eq t.manifest m
              then none
              else some conflict),
        )
  unfolding begin
  begin_again r t m qs h =
      let known = find-known sum256 qs r m.operation_id t h in
      let later = run_registry sum256 r qs in
      ground (
        arith,
        bytes_eq_iff m.session later.session,
        run_registry-session r qs,
        run-manifest t (project m.operation_id qs),
      )
