-- ===== src/TextOps/Transfer/Release.antt =====
-- What a transfer releases to adapters over its whole life.
use phonepad.Base.{
  All, Bytes, List, Option-cases, [], arith, bytes_eq_iff, false, inl, inr, length, negsuc, none,
  pos, refl, some, subst, true, ◌∷◌, ◌≡◌, ◌≢◌, ◌⊎◌,
}
use phonepad.TextOps.Hex.{hex_encode}
use phonepad.TextOps.Utf8.{utf8_valid}
use phonepad.TextOps.Manifest.{Manifest, InBounds}
use phonepad.TextOps.Transfer.{
  TextTransfer, new_transfer, append_next, append_at, append, commit, claim, finish, cancel,
  retire_transfer, has_nul,
}
use phonepad.TextOps.Transfer.History.{
  Call, appends, commits, claims, cancels, retires, finishes, step, released,
}
use phonepad.TextOps.Transfer.Invariant.{
  IsTransfer, is_staged, step-IsTransfer, new_transfer-IsTransfer,
}

has_nul-All : (s : Bytes) → has_nul s ≡ false → All (λ b. b ≢ 0) s
unfolding has_nul
has_nul-All [] h = tt
has_nul-All (b ∷ s) h = (λ e. ground arith, has_nul-All s (ground arith))

module _ (sum256 : Bytes → Bytes) where
  -- The text that a manifest announces.
  pub record IsText (m : Manifest) (text : Bytes) : Type 0 where
    pub announced : hex_encode (sum256 text) ≡ m.sha256
    pub sized : pos (length text) ≡ m.bytes
    pub well_formed : utf8_valid text ≡ true
    pub no_nul : All (λ b. b ≢ 0) text

  pub step-manifest : (t : TextTransfer) (c : Call) → (step sum256 t c).0.manifest ≡ t.manifest
  unfolding step append append_at append_next commit claim finish cancel retire_transfer
  step-manifest t (appends (negsuc i) bytes) = refl
  step-manifest t (appends (pos i) bytes) = ground arith
  step-manifest t commits = ground arith
  step-manifest t claims = ground arith
  step-manifest t cancels = ground arith
  step-manifest t retires = ground arith
  step-manifest t (finishes s) = ground arith

  -- A transfer that left the staging states gives nothing away and does not come back.
  pub step_spent :
      (t : TextTransfer) (c : Call)
      → is_staged t.state ≡ false
      → ((step sum256 t c).1 ≡ none) × (is_staged (step sum256 t c).0.state ≡ false)
  unfolding step append append_at append_next commit claim finish cancel retire_transfer
  step_spent t (appends (negsuc i) bytes) h = (refl, h)
  step_spent t (appends (pos i) bytes) h = ground arith
  step_spent t commits h = ground arith
  step_spent t claims h = ground arith
  step_spent t cancels h = ground arith
  step_spent t retires h = ground arith
  step_spent t (finishes s) h = ground arith

  pub released_spent :
      (t : TextTransfer) (cs : List Call) → is_staged t.state ≡ false → released sum256 t cs ≡ []
  unfolding released
  released_spent t [] h = refl
  released_spent t (c ∷ cs) h =
      let (quiet, left) = step_spent t c h in rw quiet (released_spent (step sum256 t c).0 cs left)

  -- A call that releases a text leaves the staging states, and the text is the announced one.
  step_releases :
      (t : TextTransfer) (c : Call) (text : Bytes)
      → IsTransfer sum256 t
      → (step sum256 t c).1 ≡ some text
      → (is_staged (step sum256 t c).0.state ≡ false) × IsText t.manifest text
  unfolding step append append_at append_next commit claim finish cancel retire_transfer
  step_releases t (appends i bytes) text v e = cc
  step_releases t commits text v e = cc
  step_releases t cancels text v e = cc
  step_releases t retires text v e = cc
  step_releases t (finishes s) text v e = cc
  step_releases t claims text v e =
      ground (arith, bytes_eq_iff (hex_encode (sum256 text)) t.manifest.sha256, has_nul-All text)

  abbrev pub AtMostOne : Manifest → List Bytes → Type 0
  AtMostOne m texts = (texts ≡ []) ⊎ ((text : Bytes) × (texts ≡ text ∷ []) × IsText m text)

  pub released-AtMostOne :
      (t : TextTransfer) (cs : List Call)
      → IsTransfer sum256 t
      → AtMostOne t.manifest (released sum256 t cs)
  unfolding released
  released-AtMostOne t [] v = inl refl
  released-AtMostOne t (c ∷ cs) v = elim (Option-cases (step sum256 t c).1) [
    | inl quiet ↦ rw quiet (
        subst (λ m. AtMostOne m (released sum256 (step sum256 t c).0 cs)) (step-manifest t c)
          (released-AtMostOne (step sum256 t c).0 cs (step-IsTransfer sum256 t c v)))
    | inr (text, loud) ↦
        let (left, good) = step_releases t c text v loud in
        rw (loud, released_spent (step sum256 t c).0 cs left) (inr (text, refl, good))
  ]

  -- Whatever calls are made of a transfer, in whatever order, at most one text is ever released,
  -- and it is the text that the manifest announces: of its size and SHA-256 digest, valid UTF-8
  -- and free of NUL bytes.
  new_transfer-AtMostOne :
      (m : Manifest) (cs : List Call)
      → InBounds m
      → AtMostOne m (released sum256 (new_transfer m) cs)
  new_transfer-AtMostOne m cs h =
      unfold new_transfer in
      released-AtMostOne (new_transfer m) cs (new_transfer-IsTransfer sum256 m h)
