-- ===== src/FileTransfers/Once.antt =====
-- That the clipboard of daemon/internal/server/file_transfers.go is called at most once for a batch.
use phonepad.Base.{
  Bool, Bytes, List, [], ap, arith, false, if_case, inl, inr, length, none, not, refl, some, true,
  ◌||◌, ◌∙◌, ◌∷◌, ◌≡◌, ◌≤◌, ◌⊎◌,
}
use phonepad.FileBatches.Disk.{FileStatus}
use phonepad.FileTransfers.Claim.{
  Answer, ClaimState, Marker, ClipboardState, Fate, absent, copy_transfer, dies, fails,
  read_clipboard, ready, says, TransferClipboard, claim_fresh, copies, dies_claiming, dies_copying,
  end_copy, not_claimed, not_created, Ending, claim, claim_text, dies_renaming, kept, link,
  not_renamed, odd, renamed_unsynced, unreadable, verify_published, written,
}

-- A request for the clipboard of the batch.
pub record Attempt : Type 0 where
  pub looked : Marker
  pub contents : List (Bytes × Bytes)
  pub permitted : Bool
  pub fate : Fate

abbrev pub new_batch : ClaimState
new_batch = record { marker = absent; calls = [] }

abbrev is_ready : ClipboardState → Bool
is_ready ready = true
is_ready _ = false

abbrev pub says_ready : Answer → Bool
says_ready (says t) = is_ready t.state
says_ready fails = false
says_ready dies = false

module _ (sum256 : Bytes → Bytes) (files : List FileStatus) where
  abbrev pub attempt : ClaimState → Attempt → ClaimState × Answer
  attempt s a = copy_transfer sum256 files a.looked a.contents a.permitted s a.fate

  -- The state after some requests, and whether one of them was answered with `ready`.
  unfoldable pub attempts : ClaimState → List Attempt → ClaimState × Bool
  attempts s [] = (s, false)
  attempts s (a ∷ rest) =
      let (s', answer) = attempt s a in
      let (s'', later) = attempts s' rest in (s'', says_ready answer || later)

abbrev is_marked : Marker → Bool
is_marked absent = false
is_marked _ = true

abbrev marks_ready : Marker → Bool
marks_ready m = is_ready (read_clipboard m).state

-- Nothing was called and the marker does not say `ready`; or there is a marker and one call, which
-- succeeded if the marker says `ready`.
abbrev IsOnce : Marker → List Bool → Type 0
IsOnce m [] = marks_ready m ≡ false
IsOnce m (ok ∷ []) = (is_marked m ≡ true) × ((ok ≡ true) ⊎ (marks_ready m ≡ false))
IsOnce m (ok ∷ other ∷ calls) = ⊥

-- One attempt keeps that, answers `ready` only after a call that succeeded, and forgets no call.
record Steps (s : ClaimState) (out : ClaimState × Answer) : Type 0 where
  once : IsOnce out.0.marker out.0.calls
  honest : (says_ready out.1 ≡ false) ⊎ (out.0.calls ≡ true ∷ [])
  kept_call : s.calls ≡ true ∷ [] → out.0.calls ≡ true ∷ []

-- An answer that is read from the marker.
reading-Steps :
    (s : ClaimState) (t : TransferClipboard)
    → t.state ≡ (read_clipboard s.marker).state
    → IsOnce s.marker s.calls
    → Steps s (s, says t)
reading-Steps s t e v = record {
  once = v;
  honest = honest s.marker s.calls v t.state e;
  kept_call = λ f. f;
}
  where
    honest :
        (m : Marker) (calls : List Bool)
        → IsOnce m calls
        → (k : ClipboardState) → k ≡ (read_clipboard m).state
        → (is_ready k ≡ false) ⊎ (calls ≡ true ∷ [])
    honest m [] v k e = inl (ap is_ready e ∙ v)
    honest m (ok ∷ []) (h, inl f) k e = inr (ap (λ b. b ∷ []) f)
    honest m (ok ∷ []) (h, inr f) k e = inl (ap is_ready e ∙ f)
    honest m (ok ∷ other ∷ calls) v k e = absurd v

-- An attempt that finds no marker and no call.
made-Steps :
    (m : Marker) (calls : List Bool) (answer : Answer)
    → IsOnce m calls
    → (says_ready answer ≡ false) ⊎ (calls ≡ true ∷ [])
    → Steps new_batch (record { marker = m; calls = calls }, answer)
made-Steps m calls answer v h = record { once = v; honest = h; kept_call = λ f. ground arith }

end_copy-Steps :
    (ok : Bool) (ending : Ending)
    → Steps new_batch (end_copy (record { marker = claim_text true; calls = ok ∷ [] }) ok ending)
unfolding end_copy read_clipboard
end_copy-Steps ok not_renamed = made-Steps _ _ _ (refl, inr refl) (inl refl)
end_copy-Steps true renamed_unsynced = made-Steps _ _ _ (refl, inl refl) (inl refl)
end_copy-Steps false renamed_unsynced = made-Steps _ _ _ (refl, inr refl) (inl refl)
end_copy-Steps true kept = made-Steps _ _ _ (refl, inl refl) (inr refl)
end_copy-Steps false kept = made-Steps _ _ _ (refl, inr refl) (inl refl)
end_copy-Steps ok (dies_renaming false) = made-Steps _ _ _ (refl, inr refl) (inl refl)
end_copy-Steps true (dies_renaming true) = made-Steps _ _ _ (refl, inl refl) (inl refl)
end_copy-Steps false (dies_renaming true) = made-Steps _ _ _ (refl, inr refl) (inl refl)

claim_fresh-Steps : (fate : Fate) → Steps new_batch (claim_fresh new_batch fate)
unfolding claim_fresh read_clipboard
claim_fresh-Steps not_created = made-Steps _ _ _ refl (inl refl)
claim_fresh-Steps (not_claimed true) = made-Steps _ _ _ refl (inl refl)
claim_fresh-Steps (not_claimed false) = made-Steps _ _ _ refl (inl refl)
claim_fresh-Steps (dies_claiming none) = made-Steps _ _ _ refl (inl refl)
claim_fresh-Steps (dies_claiming (some true)) = made-Steps _ _ _ refl (inl refl)
claim_fresh-Steps (dies_claiming (some false)) = made-Steps _ _ _ refl (inl refl)
claim_fresh-Steps dies_copying = made-Steps _ _ _ (refl, inr refl) (inl refl)
claim_fresh-Steps (copies ok ending) = end_copy-Steps ok ending

claim-Steps :
    (m : Marker) (calls : List Bool) (fate : Fate)
    → IsOnce m calls
    → let s : ClaimState = record { marker = m; calls = calls } in Steps s (claim s fate)
unfolding claim
claim-Steps absent [] fate v = claim_fresh-Steps fate
claim-Steps absent (ok ∷ []) fate v = absurd (ground arith)
claim-Steps absent (ok ∷ other ∷ calls) fate v = absurd v
claim-Steps link calls fate v = reading-Steps _ _ refl v
claim-Steps odd calls fate v = reading-Steps _ _ refl v
claim-Steps unreadable calls fate v = reading-Steps _ _ refl v
claim-Steps (written receipt) calls fate v = reading-Steps _ _ refl v

-- An answer that is not read from anything.
quiet-Steps :
    (s : ClaimState) (answer : Answer)
    → says_ready answer ≡ false
    → IsOnce s.marker s.calls
    → Steps s (s, answer)
quiet-Steps s answer e v = record { once = v; honest = inl e; kept_call = λ f. f }

module _ (sum256 : Bytes → Bytes) (files : List FileStatus) where
  copy_transfer-Steps :
      (looked : Marker) (contents : List (Bytes × Bytes)) (permitted : Bool) (s : ClaimState)
      (fate : Fate)
      → IsOnce s.marker s.calls
      → Steps s (copy_transfer sum256 files looked contents permitted s fate)
  unfolding copy_transfer
  copy_transfer-Steps unreadable contents permitted s fate v = quiet-Steps s _ refl v
  copy_transfer-Steps odd contents permitted s fate v = quiet-Steps s _ refl v
  copy_transfer-Steps link contents permitted s fate v = reading-Steps s _ refl v
  copy_transfer-Steps (written receipt) contents permitted s fate v = reading-Steps s _ refl v
  copy_transfer-Steps absent contents permitted s fate v =
      if_case (Steps s) (not (verify_published sum256 files contents)) _ _
        (λ _. quiet-Steps s _ refl v)
        (λ _.
          if_case (Steps s) (not permitted) _ _ (λ _. quiet-Steps s _ refl v)
            (λ _. claim-Steps s.marker s.calls fate v))

  record Done (s : ClaimState) (out : ClaimState × Bool) : Type 0 where
    once : IsOnce out.0.marker out.0.calls
    honest : (out.1 ≡ false) ⊎ (out.0.calls ≡ true ∷ [])
    kept_call : s.calls ≡ true ∷ [] → out.0.calls ≡ true ∷ []

  attempts-Done :
      (tries : List Attempt) (s : ClaimState)
      → IsOnce s.marker s.calls
      → Done s (attempts sum256 files s tries)
  unfolding attempts
  attempts-Done [] s v = record { once = v; honest = inl refl; kept_call = λ f. f }
  attempts-Done (a ∷ tries) s v =
      let one = copy_transfer-Steps a.looked a.contents a.permitted s a.fate v in
      let rest = attempts-Done tries (attempt sum256 files s a).0 one.once in
      record {
        once = rest.once;
        honest = elim one.honest [ inr e ↦ inr (rest.kept_call e) | inl e ↦ rw e rest.honest ];
        kept_call = λ f. rest.kept_call (one.kept_call f);
      }

  -- Whatever requests are made for the clipboard of a batch, at once or after one another, with losses
  -- of power and failing disks, and whatever the first look at the marker saw: the clipboard is called
  -- at most once, and a request is answered with `ready` only if that call succeeded.
  pub copied_once :
      (tries : List Attempt)
      → let out = attempts sum256 files new_batch tries in
        (length out.0.calls ≤ 1) × ((out.1 ≡ false) ⊎ (out.0.calls ≡ true ∷ []))
  unfolding read_clipboard
  copied_once tries =
      let d = attempts-Done tries new_batch refl in
      (few (attempts sum256 files new_batch tries).0.marker _ d.once, d.honest)
    where
      few : (m : Marker) (calls : List Bool) → IsOnce m calls → length calls ≤ 1
      few m [] v = omega arith
      few m (ok ∷ []) v = omega arith
      few m (ok ∷ other ∷ calls) v = absurd v
