-- ===== src/TextOps/Transfer/Upload.antt =====
-- An upload that goes well: every piece in order, then commit and claim.
use phonepad.Base.{
  All, Bytes, List, [], ap, arith, bytes_eq_iff, eq_ℤ_iff, false, get_elem?-end, length,
  length-append, none, pos, refl, suc, ℕ, ℤ, ◌++◌, ◌+◌, ◌<◌, ◌∙◌, ◌∷◌, ◌≡◌, ◌≢◌, ◌≤ℤ◌, ◌≤◌,
}
use mathlib.Core.List.{append-nil, append_assoc}
use phonepad.TextOps.Hex.{hex_encode}
use phonepad.TextOps.Manifest.{Manifest, max_chunks, max_chunk_bytes}
use phonepad.TextOps.Transfer.{
  receiving, TextTransfer, new_transfer, has_nul, append_next, append_at, append, commit, claim,
}
use phonepad.TextOps.Transfer.History.{Call, appends, commits, claims, step, released}
use phonepad.TextOps.Transfer.Release.{IsText}

unfoldable pub joined : List Bytes → Bytes
joined [] = []
joined (p ∷ ps) = p ++ joined ps

-- The calls of a client that sends pieces from index `i` on.
abbrev pub uploads : ℕ → List Bytes → List Call
uploads i [] = commits ∷ claims ∷ []
uploads i (p ∷ ps) = appends (pos i) p ∷ uploads (suc i) ps

abbrev pub IsPiece : Bytes → Type 0
IsPiece p = (0 < length p) × (length p ≤ max_chunk_bytes)

All-has_nul : (s : Bytes) → All (λ b. b ≢ 0) s → has_nul s ≡ false
unfolding has_nul
All-has_nul [] h = refl
All-has_nul (b ∷ s) h = ground (arith, All-has_nul s h.1, h.0)

module _ (sum256 : Bytes → Bytes) (m : Manifest) where
  grown : TextTransfer → Bytes → TextTransfer
  grown t p = record t {
    payload = t.payload ++ p;
    received = t.received + length p;
    chunks = t.chunks ++ record { size = length p; digest = sum256 p } ∷ [];
  }

  step-grown :
      (t : TextTransfer) (p : Bytes)
      → t.state ≡ receiving
      → length t.chunks < max_chunks
      → pos (t.received + length p) ≤ℤ t.manifest.bytes
      → IsPiece p
      → step sum256 t (appends (pos (length t.chunks)) p) ≡ (grown t p, none)
  unfolding step append append_at append_next grown
  step-grown t p fresh room fits piece = ground (arith, get_elem?-end t.chunks (length t.chunks))

  released_end :
      (t : TextTransfer)
      → t.state ≡ receiving
      → t.manifest ≡ m
      → length t.payload ≡ t.received
      → IsText sum256 m t.payload
      → released sum256 t (commits ∷ claims ∷ []) ≡ t.payload ∷ []
  unfolding released step commit claim
  released_end t fresh same sized good = ground (
    arith,
    eq_ℤ_iff (pos t.received) m.bytes,
    bytes_eq_iff (hex_encode (sum256 t.payload)) m.sha256,
    All-has_nul t.payload good.no_nul,
    good.announced,
    good.sized,
    good.well_formed,
  )

  released_quiet :
      (t t' : TextTransfer) (index : ℤ) (p : Bytes) (cs : List Call)
      → step sum256 t (appends index p) ≡ (t', none)
      → released sum256 t (appends index p ∷ cs) ≡ released sum256 t' cs
  unfolding released
  released_quiet t t' index p cs e = rw e

  fits_next :
      (t : TextTransfer) (p : Bytes) (ps : List Bytes)
      → t.manifest ≡ m
      → length t.payload ≡ t.received
      → IsText sum256 m (t.payload ++ joined (p ∷ ps))
      → pos (t.received + length p) ≤ℤ t.manifest.bytes
  unfolding joined
  fits_next t p ps same sized good =
      rw (same, ← good.sized)
        (omega (arith, length-append t.payload (p ++ joined ps), length-append p (joined ps)))

  released-uploads :
      (t : TextTransfer) (i : ℕ) (ps : List Bytes)
      → t.state ≡ receiving
      → t.manifest ≡ m
      → length t.payload ≡ t.received
      → i ≡ length t.chunks
      → i + length ps ≤ max_chunks
      → All IsPiece ps
      → IsText sum256 m (t.payload ++ joined ps)
      → released sum256 t (uploads i ps) ≡ (t.payload ++ joined ps) ∷ []
  unfolding joined grown
  released-uploads t i [] fresh same sized place room pieces good =
      rw append-nil (released_end t fresh same sized (rw append-nil at good))
  released-uploads t i (p ∷ ps) fresh same sized place room pieces good =
      released_quiet t (grown t p) (pos i) p (uploads (suc i) ps)
        (rw place (step-grown t p fresh (omega arith) (fits_next t p ps same sized good) pieces.0))
      ∙ released-uploads (grown t p) (suc i) ps fresh same
          (omega (arith, length-append t.payload p))
          (omega
            (arith, length-append t.chunks (record { size = length p; digest = sum256 p } ∷ [])))
          (omega arith) pieces.1 (rw append_assoc good)
      ∙ ap (λ text. text ∷ []) (append_assoc t.payload p (joined ps))

  -- Sending a text that the manifest announces, cut into at most 128 pieces of 1 to 16384 bytes,
  -- and then committing and claiming it, releases exactly that text, once.
  pub new_transfer-uploads :
      (ps : List Bytes)
      → length ps ≤ max_chunks
      → All IsPiece ps
      → IsText sum256 m (joined ps)
      → released sum256 (new_transfer m) (uploads 0 ps) ≡ joined ps ∷ []
  unfolding new_transfer
  new_transfer-uploads ps room pieces good =
      released-uploads (new_transfer m) 0 ps refl refl refl refl (omega arith) pieces good
