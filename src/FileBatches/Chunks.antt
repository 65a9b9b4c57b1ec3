-- ===== src/FileBatches/Chunks.antt =====
-- What an accepted chunk makes of the file.
use phonepad.Base.{
  Bool-cases, Bytes, ap, append-empty, arith, bytes_eq_iff, drop, drop-all, drop-append, inl, inr,
  length, length-append, length-drop, ltb, pos, refl, subst, sym, take, take-all, take-drop,
  take-length, ℕ, ℤ, ◌++◌, ◌+◌, ◌-◌, ◌∙◌, ◌≡◌, ◌≤ℤ◌, ◌≤◌,
}
use phonepad.FileBatches.Store.{merge_chunk, overlap_of}

-- The file keeps what it had, holds the chunk at its offset, and is no longer than declared.
pub record Merges (content : Bytes) (size : ℤ) (offset : ℕ) (bytes content' : Bytes) : Type 0 where
  pub kept : take (length content) content' ≡ content
  pub placed : take (length bytes) (drop offset content') ≡ bytes
  pub bounded : pos (length content') ≤ℤ size

merge_within :
    (content : Bytes) (size : ℤ) (offset : ℕ) (bytes : Bytes)
    → offset + length bytes ≤ length content
    → pos (length content) ≤ℤ size
    → take (length bytes) (drop offset content) ≡ take (length bytes) bytes
    → Merges content size offset bytes (content ++ drop (length bytes) bytes)
merge_within content size offset bytes w b q =
    let same = append-empty content _ (drop-all (length bytes) bytes (omega arith)) in
    rw same (record {
      kept = take-all (length content) content (omega arith);
      placed = q ∙ take-all (length bytes) bytes (omega arith);
      bounded = b;
    })

merge_beyond :
    (content : Bytes) (size : ℤ) (offset : ℕ) (bytes : Bytes)
    → offset ≤ length content
    → length content ≤ offset + length bytes
    → pos (offset + length bytes) ≤ℤ size
    → let overlap = length content - offset in
      take overlap (drop offset content) ≡ take overlap bytes
      → Merges content size offset bytes (content ++ drop (length content - offset) bytes)
merge_beyond content size offset bytes w g b q =
    let n = length content - offset in
    let tail : (drop offset content ≡ take n bytes) =
      sym (take-all n (drop offset content) (omega (arith, length-drop offset content))) ∙ q in
    let whole : (drop offset (content ++ drop n bytes) ≡ bytes) =
      drop-append offset content (drop n bytes) w
      ∙ ap (λ s. s ++ drop n bytes) tail
      ∙ take-drop n bytes in
    record {
      kept = take-length content (drop n bytes);
      placed = ap (take (length bytes)) whole ∙ take-all (length bytes) bytes (omega arith);
      bounded = omega (arith, length-append content (drop n bytes), length-drop n bytes, w, g, b);
    }

-- What the tests of `merge_chunk` leave.
accepted :
    (content : Bytes) (size : ℤ) (offset : ℕ) (bytes content' : Bytes)
    → merge_chunk content size offset bytes ≡ inl content'
    → let overlap = overlap_of content offset bytes in
      (pos (length content) ≤ℤ size)
      × (offset ≤ length content)
      × (pos (offset + length bytes) ≤ℤ size)
      × (take overlap (drop offset content) ≡ take overlap bytes)
      × (content ++ drop overlap bytes ≡ content')
unfolding merge_chunk
accepted content size offset bytes content' h =
    let overlap = overlap_of content offset bytes in
    ground (arith, bytes_eq_iff (take overlap (drop offset content)) (take overlap bytes))

-- A chunk that is accepted leaves what the file had, puts the chunk at its offset, also where the
-- two overlap, and keeps the file within its declared size.
pub merge_chunk-Merges :
    (content : Bytes) (size : ℤ) (offset : ℕ) (bytes content' : Bytes)
    → merge_chunk content size offset bytes ≡ inl content'
    → Merges content size offset bytes content'
merge_chunk-Merges content size offset bytes content' h =
    let (short, near, fits, same, whole) = accepted content size offset bytes content' h in
    elim (Bool-cases (ltb (length content - offset) (length bytes))) [
      | inl c ↦
          subst (Merges content size offset bytes)
            (subst (λ n. content ++ drop n bytes ≡ content') (rw c refl) whole)
            (merge_beyond content size offset bytes near (ground arith) fits
              (subst (λ n. take n (drop offset content) ≡ take n bytes) (rw c refl) same))
      | inr c ↦
          subst (Merges content size offset bytes)
            (subst (λ n. content ++ drop n bytes ≡ content') (rw c refl) whole)
            (merge_within content size offset bytes (ground arith) short
              (subst (λ n. take n (drop offset content) ≡ take n bytes) (rw c refl) same))
    ]
