-- ===== src/TextOps/Registry/Known.antt =====
-- A registry never forgets: the history of a registry is, for each operation, a history of its
-- transfer.
use phonepad.Base.{
  Bool-cases, Bytes, List, [], ap, arith, bytes_eq, bytes_eq_iff, if◌then◌else◌, inl, inr, none,
  refl, some, ◌∙◌, ◌∷◌, ◌≡◌,
}
use phonepad.TextOps.Manifest.{Manifest}
use phonepad.TextOps.Transfer.{TextTransfer, retire_transfer}
use phonepad.TextOps.Transfer.History.{Call, retires, step, run, released, emit}
use phonepad.TextOps.Registry.{
  Operations, Registry, Request, begins, calls, retires_all, find, update, begin, retire,
  retire_all, serve, run_registry, released_for, emit_of, released_by, admit,
}

find-update :
    (id key : Bytes) (f : TextTransfer → TextTransfer) (ops : Operations)
    → find id (update key f ops)
      ≡ elim (find id ops) [ none ↦ none | some t ↦ some (if bytes_eq key id then f t else t) ]
unfolding find update
find-update id key f [] = refl
find-update id key f ((k, t) ∷ ops) =
    ground
      (arith, find-update id key f ops, bytes_eq_iff k id, bytes_eq_iff k key, bytes_eq_iff key id)

pub find-retire_all :
    (id : Bytes) (ops : Operations)
    → find id (retire_all ops)
      ≡ elim (find id ops) [ none ↦ none | some t ↦ some (retire_transfer t) ]
unfolding find retire_all
find-retire_all id [] = refl
find-retire_all id ((k, t) ∷ ops) = ground (arith, find-retire_all id ops)

-- The calls of a registry's history that reach one operation.
pub project : Bytes → List Request → List Call
project id [] = []
project id (begins m ∷ qs) = project id qs
project id (calls key c ∷ qs) =
    let rest = project id qs in if bytes_eq key id then c ∷ rest else rest
project id (retires_all ∷ qs) = retires ∷ project id qs

module _ (sum256 : Bytes → Bytes) where
  -- `begin` leaves a known operation alone.
  find-begin :
      (r : Registry) (m : Manifest) (id : Bytes) (t : TextTransfer)
      → find id r.operations ≡ some t
      → find id (serve sum256 r (begins m)).0.operations ≡ some t
  unfolding serve begin admit find
  find-begin r m id t h = ground (arith, bytes_eq_iff m.operation_id id)

  find-call :
      (r : Registry) (key : Bytes) (c : Call) (id : Bytes) (t : TextTransfer)
      → find id r.operations ≡ some t
      → find id (serve sum256 r (calls key c)).0.operations
        ≡ some (if bytes_eq key id then (step sum256 t c).0 else t)
  unfolding serve
  find-call r key c id t h = rw (find-update id key (λ u. (step sum256 u c).0) r.operations) (rw h)

  emit_of-call :
      (r : Registry) (key : Bytes) (c : Call) (id : Bytes) (t : TextTransfer) (rest : List Bytes)
      → find id r.operations ≡ some t
      → emit_of id (serve sum256 r (calls key c)).1 rest
        ≡ (if bytes_eq key id then emit (step sum256 t c).1 rest else rest)
  unfolding serve released_by
  emit_of-call r key c id t rest h = elim (Bool-cases (bytes_eq key id)) [
    | inl same ↦
        let e = (bytes_eq_iff key id).0 same in ground (arith, ap (λ k. find k r.operations) e)
    | inr other ↦ ground arith
  ]

  find-retire :
      (r : Registry) (id : Bytes) (t : TextTransfer)
      → find id r.operations ≡ some t
      → find id (serve sum256 r retires_all).0.operations ≡ some (step sum256 t retires).0
  unfolding serve step retire
  find-retire r id t h = rw (find-retire_all id r.operations) (rw h)

  emit_of-begin :
      (r : Registry) (m : Manifest) (id : Bytes) (rest : List Bytes)
      → emit_of id (serve sum256 r (begins m)).1 rest ≡ rest
  unfolding serve
  emit_of-begin r m id rest = refl

  emit_of-retire :
      (r : Registry) (t : TextTransfer) (id : Bytes) (rest : List Bytes)
      → emit_of id (serve sum256 r retires_all).1 rest ≡ emit (step sum256 t retires).1 rest
  unfolding serve step
  emit_of-retire r t id rest = refl

  -- What a registry releases for a known operation is what its transfer releases.
  pub released_for-known :
      (qs : List Request) (r : Registry) (id : Bytes) (t : TextTransfer)
      → find id r.operations ≡ some t
      → released_for sum256 id r qs ≡ released sum256 t (project id qs)
  unfolding released_for released project
  released_for-known [] r id t h = refl
  released_for-known (begins m ∷ qs) r id t h =
      emit_of-begin r m id _
      ∙ released_for-known qs (serve sum256 r (begins m)).0 id t (find-begin r m id t h)
  released_for-known (calls key c ∷ qs) r id t h =
      let r' = (serve sum256 r (calls key c)).0 in
      emit_of-call r key c id t (released_for sum256 id r' qs) h
      ∙ elim (Bool-cases (bytes_eq key id)) [
        | inl same ↦ rw (
          same,
          released_for-known qs r' id (step sum256 t c).0 (find-call r key c id t h ∙ rw same),
        )
        | inr other ↦
            rw (other, released_for-known qs r' id t (find-call r key c id t h ∙ rw other))
      ]
  released_for-known (retires_all ∷ qs) r id t h =
      emit_of-retire r t id _
      ∙ ap (emit (step sum256 t retires).1) (
          released_for-known qs (serve sum256 r retires_all).0 id (step sum256 t retires).0
            (find-retire r id t h))

  -- A known operation stays known, in the state that its own calls put it in.
  pub find-known :
      (qs : List Request) (r : Registry) (id : Bytes) (t : TextTransfer)
      → find id r.operations ≡ some t
      → find id (run_registry sum256 r qs).operations ≡ some (run sum256 t (project id qs))
  unfolding run_registry run project
  find-known [] r id t h = h
  find-known (begins m ∷ qs) r id t h =
      find-known qs (serve sum256 r (begins m)).0 id t (find-begin r m id t h)
  find-known (calls key c ∷ qs) r id t h =
      let r' = (serve sum256 r (calls key c)).0 in
      elim (Bool-cases (bytes_eq key id)) [
        | inl same ↦
            rw same (find-known qs r' id (step sum256 t c).0 (find-call r key c id t h ∙ rw same))
        | inr other ↦ rw other (find-known qs r' id t (find-call r key c id t h ∙ rw other))
      ]
  find-known (retires_all ∷ qs) r id t h =
      find-known qs (serve sum256 r retires_all).0 id (step sum256 t retires).0
        (find-retire r id t h)
