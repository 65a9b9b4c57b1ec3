-- ===== src/FileBatches/Published.antt =====
-- What a published folder is, and that it stays.
use phonepad.Base.{
  Bytes, List, [], ap, arith, bytes_eq_iff, eq_ℤ_iff, get, get-put_cases, get-put_new, inl, inr,
  length, none, pos, refl, some, suc, sym, ℕ, ◌∙◌, ◌∷◌, ◌≡◌,
}
use phonepad.FileBatches.History.{Call, run_call, run_calls, new_store}
use phonepad.FileBatches.Manifest.{FileSpec}
use phonepad.FileBatches.Disk.{
  Published, Store, published_name, rename_from, Stage, destination_folder, rename_published_files,
}
use phonepad.FileBatches.Publishing.{Publishes, run_call-Publishes}
use phonepad.TextOps.Hex.{hex_encode}
use phonepad.FileBatches.Store.{publish, verify_files}

-- The files of a folder are those of the manifest, in order: each IsUnder its number and name, and of
-- the size and digest that the manifest announces.
abbrev pub Matches : (Bytes → Bytes) → ℕ → List FileSpec → List (Bytes × Bytes) → Type 0
Matches sum256 i [] [] = Unit {0}
Matches sum256 i (spec ∷ specs) ((name, content) ∷ rest) =
    (name ≡ published_name i spec.name)
    × (pos (length content) ≡ spec.bytes)
    × (hex_encode (sum256 content) ≡ spec.sha256)
    × Matches sum256 (suc i) specs rest
Matches sum256 i _ _ = ⊥

module _ (sum256 : Bytes → Bytes) where
  Publishes-keeps :
      (ds ds' : List (Bytes × Published)) (id : Bytes) (p : Published)
      → Publishes sum256 ds ds'
      → get id ds ≡ some p
      → get id ds' ≡ some p
  Publishes-keeps ds ds' id p (inl e) h = rw e h
  Publishes-keeps ds ds' id p (inr (k, s, n, v, e)) h =
      rw e (get-put_new id k (publish s k) p ds n h)

  -- A published folder stays as it was published, whatever calls follow: no chunk, retry, second
  -- commit, cancellation or expiry changes or removes it.
  pub published_forever :
      (st : Store) (id : Bytes) (p : Published) (cs : List Call)
      → get id st.destinations ≡ some p
      → get id (run_calls sum256 st cs).destinations ≡ some p
  unfolding run_calls
  published_forever st id p [] h = h
  published_forever st id p (c ∷ cs) h = published_forever (run_call sum256 st c) id p cs (
      Publishes-keeps st.destinations (run_call sum256 st c).destinations id p
        (run_call-Publishes sum256 st c) h)

  verify_first :
      (spec : FileSpec) (specs : List FileSpec) (p : Bytes) (ps : List Bytes)
      → verify_files sum256 (spec ∷ specs) (p ∷ ps) ≡ none
      → (pos (length p) ≡ spec.bytes)
        × (hex_encode (sum256 p) ≡ spec.sha256)
        × (verify_files sum256 specs ps ≡ none)
  unfolding verify_files
  verify_first spec specs p ps v = ground (
    arith,
    eq_ℤ_iff (pos (length p)) spec.bytes,
    bytes_eq_iff (hex_encode (sum256 p)) spec.sha256,
  )

  rename-Matches :
      (i : ℕ) (specs : List FileSpec) (ps : List Bytes)
      → verify_files sum256 specs ps ≡ none
      → Matches sum256 i specs (rename_from i specs ps)
  unfolding verify_files rename_from
  rename-Matches i [] ps v = tt
  rename-Matches i (spec ∷ specs) [] v = ground (arith, v)
  rename-Matches i (spec ∷ specs) (p ∷ ps) v =
      let (size, digest, rest) = verify_first spec specs p ps v in
      (refl, size, digest, rename-Matches (suc i) specs ps rest)

  -- Every folder IsUnder its name holds what its manifest announces.
  abbrev pub IsSound : List (Bytes × Published) → Type 0
  IsSound ds =
      (id : Bytes) (p : Published)
      → get id ds ≡ some p
      → (p.folder ≡ destination_folder id) × Matches sum256 0 p.manifest.files p.contents

  published-Matches :
      (s : Stage) (id : Bytes)
      → verify_files sum256 s.manifest.files s.payloads ≡ none
      → (((publish s id).folder ≡ destination_folder id)
          × Matches sum256 0 (publish s id).manifest.files (publish s id).contents)
  unfolding publish rename_published_files
  published-Matches s id v = (refl, rename-Matches 0 s.manifest.files s.payloads v)

  Publishes-IsSound :
      (ds ds' : List (Bytes × Published)) → Publishes sum256 ds ds' → IsSound ds → IsSound ds'
  Publishes-IsSound ds ds' (inl e) h id p g = h id p (sym (ap (get id) e) ∙ g)
  Publishes-IsSound ds ds' (inr (k, s, n, v, e)) h id p g =
      elim (get-put_cases id k (publish s k) p ds (sym (ap (get id) e) ∙ g)) [
        | inl (same, q) ↦ rw (sym q, sym same) (published-Matches s k v)
        | inr old ↦ h id p old
      ]

  run_calls-IsSound :
      (st : Store) (cs : List Call)
      → IsSound st.destinations
      → IsSound (run_calls sum256 st cs).destinations
  unfolding run_calls
  run_calls-IsSound st [] h = h
  run_calls-IsSound st (c ∷ cs) h = run_calls-IsSound (run_call sum256 st c) cs (
      Publishes-IsSound st.destinations (run_call sum256 st c).destinations
        (run_call-Publishes sum256 st c) h)

  -- Whatever calls a new store gets, a published folder holds exactly the files that its manifest
  -- announces, in order, each IsUnder its number and name and of its size and SHA-256 digest.
  pub new_store-IsSound : (cs : List Call) → IsSound (run_calls sum256 new_store cs).destinations
  unfolding get
  new_store-IsSound cs = run_calls-IsSound new_store cs (λ id p h. ground arith)
