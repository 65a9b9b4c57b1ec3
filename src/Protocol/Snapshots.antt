-- ===== src/Protocol/Snapshots.antt =====
-- Snapshots of contacts that Parse lets through, and what the touchpad makes of them.
use phonepad.Base.{
  Bytes, List, [], arith, ascii, eq_ℤ_iff, false, refl, some, true, ℤ, ◌∷◌, ◌≡◌, ◌≢◌,
}
use phonepad.Floats.{FloatOps}
use phonepad.Touchpad.Events.{Contact, free, MtState, frame}
use phonepad.Touchpad.Slots.{held}
use phonepad.Touchpad.Slots.Count.{AreIds}
use phonepad.Touchpad.Frame.{ids, IsTable, Tracks, frame-Tracks}
use phonepad.Protocol.Messages.{Msg, Decoder, parse, valid_touches, valid_contact, seen_id}
use phonepad.Protocol.Messages.Checked.{IsSnapshot, parse-valid_msg, valid_msg-IsSnapshot}

seen_id-held : (id : ℤ) (js : List ℤ) → seen_id id js ≡ held id js
unfolding seen_id held
seen_id-held id [] = refl
seen_id-held id (j ∷ js) = ground (arith, seen_id-held id js)

-- No member of the first list stands in the second.
Disjoint : List ℤ → List ℤ → Type 0
Disjoint [] js = Unit {0}
Disjoint (i ∷ is) js = (held i js ≡ false) × Disjoint is js

Disjoint-cons :
    (is js : List ℤ) (j : ℤ) → Disjoint is (j ∷ js) → (held j is ≡ false) × Disjoint is js
unfolding Disjoint held
Disjoint-cons [] js j d = ground arith
Disjoint-cons (i ∷ is) js j d = ground (arith, Disjoint-cons is js j, eq_ℤ_iff i j, eq_ℤ_iff j i)

module _ (fl : FloatOps) where
  valid_contact-id : (c : Contact fl) → valid_contact fl c ≡ true → c.id ≢ free
  unfolding valid_contact
  valid_contact-id c h = ground arith

  valid_touches-AreIds :
      (seen : List ℤ) (cs : List (Contact fl))
      → valid_touches fl seen cs ≡ true
      → AreIds (ids fl cs) × Disjoint (ids fl cs) seen
  unfolding valid_touches ids Disjoint
  valid_touches-AreIds seen [] h = ground arith
  valid_touches-AreIds seen (c ∷ cs) h = ground (
    arith,
    valid_touches-AreIds (c.id ∷ seen) cs,
    Disjoint-cons (ids fl cs) seen c.id,
    valid_contact-id c,
    seen_id-held c.id seen,
  )

  snapshot-Tracks :
      (m : Msg fl) (s : MtState)
      → IsSnapshot fl m
      → IsTable s.slot_id
      → Tracks fl m.touches s.slot_id (frame fl s m.touches).1.slot_id
  snapshot-Tracks m s snap table =
      frame-Tracks fl s m.touches table snap.few (valid_touches-AreIds [] m.touches snap.sound).0

  -- In any state with five slots and no contact in two of them, the touchpad may be handed a
  -- snapshot that Parse accepts: afterwards exactly its contacts hold a slot, each one slot, and a
  -- contact that had a slot keeps it. A snapshot marked as a cancellation names no contact.
  pub parse-Tracks :
      (d : Decoder fl) (bytes : Bytes) (m : Msg fl) (s : MtState)
      → parse fl d bytes ≡ some m
      → m.type ≡ ascii "t"
      → IsTable s.slot_id
      → Tracks fl m.touches s.slot_id (frame fl s m.touches).1.slot_id
        × (m.cancel ≡ true → m.touches ≡ [])
  parse-Tracks d bytes m s h e table =
      let snap = valid_msg-IsSnapshot fl d.to_lower m (parse-valid_msg fl d bytes m h) e in
      (snapshot-Tracks m s snap table, snap.lifted)
