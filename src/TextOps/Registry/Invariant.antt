-- ===== src/TextOps/Registry/Invariant.antt =====
-- What holds of a registry between two requests.
use phonepad.Base.{
  All, Bytes, List, [], ap, arith, bytes_eq_iff, length, none, refl, some, suc, true, ℕ, ◌<◌, ◌∷◌,
  ◌≡◌, ◌≤◌,
}
use phonepad.TextOps.Manifest.{
  Manifest, valid_manifest, InBounds, valid_manifest-InBounds, max_operations,
}
use phonepad.TextOps.Transfer.{TextTransfer, new_transfer, retire_transfer}
use phonepad.TextOps.Transfer.History.{Call, retires, step}
use phonepad.TextOps.Transfer.Invariant.{IsTransfer, new_transfer-IsTransfer, step-IsTransfer}
use phonepad.TextOps.Transfer.Release.{step-manifest}
use phonepad.TextOps.Registry.Known.{find-retire_all}
use phonepad.TextOps.Registry.{
  Operations, Registry, Request, begins, calls, retires_all, find, update, begin, retire,
  retire_all, serve, run_registry, new_registry, admit,
}

-- Sequence numbers fall strictly from the newest operation on, all below `n`.
abbrev pub Below : ℕ → Operations → Type 0
Below n [] = Unit {0}
Below n ((key, t) ∷ ops) = (t.manifest.sequence < n) × Below t.manifest.sequence ops

-- No identifier stands twice.
abbrev pub Distinct : Operations → Type 0
Distinct [] = Unit {0}
Distinct ((key, t) ∷ ops) = (find key ops ≡ none) × Distinct ops

module _ (sum256 : Bytes → Bytes) where
  pub record IsEntry (session : Bytes) (e : Bytes × TextTransfer) : Type 0 where
    pub named : e.1.manifest.operation_id ≡ e.0
    pub bound : e.1.manifest.session ≡ session
    pub limited : InBounds e.1.manifest
    pub sound : IsTransfer sum256 e.1

  pub record IsRegistry (r : Registry) : Type 0 where
    pub few : length r.operations ≤ max_operations
    pub ordered : Below (suc r.highest) r.operations
    pub distinct : Distinct r.operations
    pub entries : All (IsEntry r.session) r.operations

  -- The same, of the operations alone.
  abbrev IsOperations : Bytes → ℕ → Operations → Type 0
  IsOperations session n ops = Below n ops × Distinct ops × All (IsEntry session) ops

  find-none-update :
      (id key : Bytes) (f : TextTransfer → TextTransfer) (ops : Operations)
      → find id ops ≡ none
      → find id (update key f ops) ≡ none
  unfolding find update
  find-none-update id key f [] h = refl
  find-none-update id key f ((k, t) ∷ ops) h = ground (arith, find-none-update id key f ops)

  length-update :
      (key : Bytes) (f : TextTransfer → TextTransfer) (ops : Operations)
      → length (update key f ops) ≡ length ops
  unfolding update
  length-update key f [] = refl
  length-update key f (e ∷ ops) = ap suc (length-update key f ops)

  step-IsEntry :
      (session key : Bytes) (t : TextTransfer) (c : Call)
      → IsEntry session (key, t)
      → IsEntry session (key, (step sum256 t c).0)
  step-IsEntry session key t c v = record {
    named = rw (step-manifest sum256 t c) v.named;
    bound = rw (step-manifest sum256 t c) v.bound;
    limited = rw (step-manifest sum256 t c) v.limited;
    sound = step-IsTransfer sum256 t c v.sound;
  }

  update-IsOperations :
      (session key : Bytes) (n : ℕ) (c : Call) (ops : Operations)
      → IsOperations session n ops
      → IsOperations session n (update key (λ t. (step sum256 t c).0) ops)
  unfolding update
  update-IsOperations session key n c [] v = v
  update-IsOperations session key n c ((k, t) ∷ ops) v = ground (
    arith,
    step-manifest sum256 t c,
    find-none-update k key (λ u. (step sum256 u c).0) ops,
    step-IsEntry session k t c,
    update-IsOperations session key t.manifest.sequence c ops,
  )

  retire_transfer-manifest : (t : TextTransfer) → (retire_transfer t).manifest ≡ t.manifest
  unfolding retire_transfer
  retire_transfer-manifest t = ground arith

  -- Retiring an operation is one more call of it.
  retire_transfer-IsEntry :
      (session key : Bytes) (t : TextTransfer)
      → IsEntry session (key, t)
      → IsEntry session (key, retire_transfer t)
  unfolding step
  retire_transfer-IsEntry session key t v = step-IsEntry session key t retires v

  retire_all-IsOperations :
      (session : Bytes) (n : ℕ) (ops : Operations)
      → IsOperations session n ops
      → IsOperations session n (retire_all ops)
  unfolding retire_all
  retire_all-IsOperations session n [] v = v
  retire_all-IsOperations session n ((k, t) ∷ ops) v = ground (
    arith,
    retire_transfer-manifest t,
    find-retire_all k ops,
    retire_transfer-IsEntry session k t,
    retire_all-IsOperations session t.manifest.sequence ops,
  )

  length-retire_all : (ops : Operations) → length (retire_all ops) ≡ length ops
  unfolding retire_all
  length-retire_all [] = refl
  length-retire_all (e ∷ ops) = ap suc (length-retire_all ops)

  retire-IsRegistry : (r : Registry) → IsRegistry r → IsRegistry (retire r)
  unfolding retire
  retire-IsRegistry r v =
      let (o, d, e) =
        retire_all-IsOperations r.session (suc r.highest) r.operations
          (v.ordered, v.distinct, v.entries) in
      record {
        few = rw (length-retire_all r.operations) v.few;
        ordered = o;
        distinct = d;
        entries = e;
      }

  new_transfer-IsEntry :
      (session : Bytes) (m : Manifest)
      → valid_manifest m ≡ true
      → m.session ≡ session
      → IsEntry session (m.operation_id, new_transfer m)
  unfolding new_transfer
  new_transfer-IsEntry session m h e = record {
    named = refl;
    bound = e;
    limited = valid_manifest-InBounds m h;
    sound = unfold new_transfer in new_transfer-IsTransfer sum256 m (valid_manifest-InBounds m h);
  }

  Below-mono : (a b : ℕ) (ops : Operations) → a ≤ b → Below a ops → Below b ops
  Below-mono a b [] h v = v
  Below-mono a b ((k, t) ∷ ops) h v = (omega arith, v.1)

  new_transfer-manifest : (m : Manifest) → (new_transfer m).manifest ≡ m
  unfolding new_transfer
  new_transfer-manifest m = refl

  begin-IsRegistry : (r : Registry) (m : Manifest) → IsRegistry r → IsRegistry (begin r m).0
  unfolding begin admit
  begin-IsRegistry r m v = ground (
    arith,
    new_transfer-IsEntry r.session m,
    bytes_eq_iff m.session r.session,
    Below-mono (suc r.highest) m.sequence r.operations,
    new_transfer-manifest m,
  )

  -- Every request keeps the invariant.
  pub serve-IsRegistry :
      (r : Registry) (q : Request) → IsRegistry r → IsRegistry (serve sum256 r q).0
  unfolding serve
  serve-IsRegistry r (begins m) v = begin-IsRegistry r m v
  serve-IsRegistry r (calls key c) v =
      let (o, d, e) =
        update-IsOperations r.session key (suc r.highest) c r.operations
          (v.ordered, v.distinct, v.entries) in
      record {
        few = rw (length-update key (λ t. (step sum256 t c).0) r.operations) v.few;
        ordered = o;
        distinct = d;
        entries = e;
      }
  serve-IsRegistry r retires_all v = retire-IsRegistry r v

  pub run_registry-IsRegistry :
      (r : Registry) (qs : List Request) → IsRegistry r → IsRegistry (run_registry sum256 r qs)
  unfolding run_registry
  run_registry-IsRegistry r [] v = v
  run_registry-IsRegistry r (q ∷ qs) v =
      run_registry-IsRegistry (serve sum256 r q).0 qs (serve-IsRegistry r q v)

  -- In a registry made for a session, after any requests: at most 64 operations, each under its own
  -- identifier and of that session, no identifier twice, sequence numbers strictly falling from the
  -- newest operation to the oldest and at most the highest one seen, and every transfer sound.
  pub new_registry-IsRegistry :
      (session : Bytes) (r : Registry) (qs : List Request)
      → new_registry session ≡ some r
      → IsRegistry (run_registry sum256 r qs)
  unfolding new_registry
  new_registry-IsRegistry session r qs h = run_registry-IsRegistry r qs (ground arith)
