-- ===== src/TextOps/Transfer/Invariant.antt =====
-- What holds of a transfer between two calls.
use phonepad.Base.{
  Bool, Bytes, List, [], arith, eq_ℤ_iff, false, length, length-append, negsuc, pos, suc, true, ℕ,
  ◌++◌, ◌+◌, ◌||◌, ◌∷◌, ◌≡◌, ◌≤ℤ◌, ◌≤◌,
}
use phonepad.TextOps.Manifest.{Manifest, InBounds, max_chunks}
use phonepad.TextOps.Transfer.{
  State, ready, TextTransfer, Chunk, new_transfer, is_receiving, is_ready, acceptable, append_next,
  append_at, append, commit, claim, finish, cancel, retire_transfer,
}
use phonepad.TextOps.Transfer.History.{
  Call, appends, commits, claims, cancels, retires, finishes, step,
}

abbrev pub total : List Chunk → ℕ
total [] = 0
total (c ∷ cs) = c.size + total cs

total-append : (cs : List Chunk) (c : Chunk) → total (cs ++ c ∷ []) ≡ total cs + c.size
total-append [] c = omega arith
total-append (d ∷ cs) c = omega (arith, total-append cs c)

abbrev pub is_staged : State → Bool
is_staged s = is_receiving s || is_ready s

module _ (sum256 : Bytes → Bytes) where
  pub record IsTransfer (t : TextTransfer) : Type 0 where
    pub counted : t.received ≡ total t.chunks
    pub fits : pos t.received ≤ℤ t.manifest.bytes
    pub few : length t.chunks ≤ max_chunks
    pub staged : is_staged t.state ≡ true → length t.payload ≡ t.received
    pub dropped : is_staged t.state ≡ false → t.payload ≡ []
    pub complete : t.state ≡ ready → pos t.received ≡ t.manifest.bytes
    pub verified : t.state ≡ ready → acceptable sum256 t.manifest t.payload ≡ true

  pub new_transfer-IsTransfer : (m : Manifest) → InBounds m → IsTransfer (new_transfer m)
  unfolding new_transfer
  new_transfer-IsTransfer m h = ground arith

  append_next-IsTransfer :
      (t : TextTransfer) (i : ℕ) (bytes : Bytes)
      → suc i ≤ max_chunks
      → IsTransfer t
      → IsTransfer (append_next sum256 t i bytes).0
  unfolding append_next
  append_next-IsTransfer t i bytes room v = ground (
    arith,
    length-append t.payload bytes,
    length-append t.chunks (record { size = length bytes; digest = sum256 bytes } ∷ []),
    total-append t.chunks (record { size = length bytes; digest = sum256 bytes }),
  )

  -- Every call keeps the invariant.
  pub step-IsTransfer :
      (t : TextTransfer) (c : Call) → IsTransfer t → IsTransfer (step sum256 t c).0
  unfolding step append append_at commit claim finish cancel retire_transfer
  step-IsTransfer t (appends (negsuc i) bytes) v = v
  step-IsTransfer t (appends (pos i) bytes) v = ground (arith, append_next-IsTransfer t i bytes)
  step-IsTransfer t commits v = ground (arith, eq_ℤ_iff (pos t.received) t.manifest.bytes)
  step-IsTransfer t claims v = ground arith
  step-IsTransfer t cancels v = ground arith
  step-IsTransfer t retires v = ground arith
  step-IsTransfer t (finishes s) v = ground arith
