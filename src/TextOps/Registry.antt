-- ===== src/TextOps/Registry.antt =====
-- Registry of daemon/internal/inputops/text.go. The map is an association list with the newest
-- operation first; a pointer to a transfer is the operation's identifier, since the registry
-- creates one transfer for an identifier and never removes it.
pub mod Known
pub mod Invariant
pub mod Once
use phonepad.Base.{
  Bytes, List, Option, [], bytes_eq, if◌then◌else◌, leb, length, none, not, some, ℕ, ◌||◌, ◌∷◌,
}
use phonepad.TextOps.Manifest.{Manifest, valid_id, valid_manifest, manifest_eq, max_operations}
use phonepad.TextOps.Transfer.{
  TextTransfer, Receipt, Error, invalid, conflict, capacity, new_transfer, receipt, retire_transfer,
}
use phonepad.TextOps.Transfer.History.{Call, step}

abbrev pub Operations : Type 0
Operations = List (Bytes × TextTransfer)

pub record Registry : Type 0 where
  pub session : Bytes
  pub operations : Operations
  pub highest : ℕ

unfoldable pub find : Bytes → Operations → Option TextTransfer
find id [] = none
find id ((key, t) ∷ rest) = if bytes_eq key id then some t else find id rest

-- A method call through the pointer that the registry handed out.
unfoldable pub update : Bytes → (TextTransfer → TextTransfer) → Operations → Operations
update id f [] = []
update id f ((key, t) ∷ rest) = (key, (if bytes_eq key id then f t else t)) ∷ update id f rest

-- NewRegistry; `none` is ErrInvalid.
unfoldable pub new_registry : Bytes → Option Registry
new_registry session =
    if not (valid_id session)
    then none
    else some (record { session = session; operations = []; highest = 0 })

admit : Registry → Manifest → Registry × Option Error
admit r m =
    if leb m.sequence r.highest
    then (r, some conflict)
    else if leb max_operations (length r.operations)
    then (r, some capacity)
    else (
      record r {
        operations = (m.operation_id, new_transfer m) ∷ r.operations;
        highest = m.sequence;
      },
      none,
    )

-- Without an error the caller holds the transfer of `m.operation_id`.
unfoldable pub begin : Registry → Manifest → Registry × Option Error
unfolding admit
begin r m =
    if not (valid_manifest m) || not (bytes_eq m.session r.session)
    then (r, some invalid)
    else elim (find m.operation_id r.operations) [
      | some old ↦ if manifest_eq old.manifest m then (r, none) else (r, some conflict)
      | none ↦ admit r m
    ]

-- Lookup
unfoldable pub lookup : Registry → Bytes → Option Receipt
lookup r id = elim (find id r.operations) [ none ↦ none | some t ↦ some (receipt t) ]

pub retire_all : Operations → Operations
retire_all [] = []
retire_all ((key, t) ∷ rest) = (key, retire_transfer t) ∷ retire_all rest

unfoldable pub retire : Registry → Registry
unfolding retire_all
retire r = record r { operations = retire_all r.operations }

-- What the clients of one registry do, one call at a time.
pub data Request : Type 0 where
  begins : Manifest → Request
  calls : Bytes → Call → Request
  retires_all : Request

abbrev pub emit_of : Bytes → Option (Bytes × Bytes) → List Bytes → List Bytes
emit_of id none rest = rest
emit_of id (some (key, text)) rest = if bytes_eq key id then text ∷ rest else rest

module _ (sum256 : Bytes → Bytes) where
  released_by : Option TextTransfer → Bytes → Call → Option (Bytes × Bytes)
  released_by none id c = none
  released_by (some t) id c = elim (step sum256 t c).1 [ none ↦ none | some text ↦ some (id, text) ]

  -- The registry after a request, and the text that it released with its operation.
  unfoldable pub serve : Registry → Request → Registry × Option (Bytes × Bytes)
  unfolding released_by
  serve r (begins m) = ((begin r m).0, none)
  serve r (calls id c) = (
    record r { operations = update id (λ t. (step sum256 t c).0) r.operations },
    released_by (find id r.operations) id c,
  )
  serve r retires_all = (retire r, none)

  unfoldable pub run_registry : Registry → List Request → Registry
  run_registry r [] = r
  run_registry r (q ∷ qs) = run_registry (serve r q).0 qs

  -- The texts that a history releases for one operation.
  unfoldable pub released_for : Bytes → Registry → List Request → List Bytes
  released_for id r [] = []
  released_for id r (q ∷ qs) = emit_of id (serve r q).1 (released_for id (serve r q).0 qs)
