-- ===== src/Protocol/Messages/Checked.antt =====
-- What a message that Parse returns has passed.
use phonepad.Base.{
  Bool, Bytes, Option-cases, [], arith, ascii, bytes_eq, false, if◌then◌else◌, inl, inr, length,
  refl, some, sym, true, ◌∙◌, ◌≡◌, ◌≤◌,
}
use phonepad.Floats.{FloatOps}
use phonepad.Protocol.Messages.{
  Msg, Decoder, parse, parse_fields, lowered, checked, valid_body, valid_msg, valid_frame,
  valid_touches, max_contacts,
}

true_of_if : (b c : Bool) → (if b then false else c) ≡ true → c ≡ true
true_of_if b c h = ground arith

module _ (fl : FloatOps) where
  pub record IsSnapshot (m : Msg fl) : Type 0 where
    pub few : length m.touches ≤ max_contacts
    pub sound : valid_touches fl [] m.touches ≡ true
    pub lifted : m.cancel ≡ true → m.touches ≡ []

  frame-IsSnapshot : (m : Msg fl) → valid_frame fl m ≡ true → IsSnapshot m
  unfolding valid_frame
  frame-IsSnapshot m h = ground arith

  valid_msg-body :
      (to_lower : Bytes → Bytes) (m : Msg fl)
      → valid_msg fl to_lower m ≡ true
      → valid_body fl to_lower m ≡ true
  unfolding valid_msg
  valid_msg-body to_lower m h = true_of_if _ _ (true_of_if _ _ h)

  -- Only the case of snapshots is left of the switch.
  valid_body-frame :
      (to_lower : Bytes → Bytes) (m : Msg fl)
      → m.type ≡ ascii "t"
      → valid_body fl to_lower m ≡ valid_frame fl m
  unfolding valid_body bytes_eq
  valid_body-frame to_lower m e = rw e refl

  pub valid_msg-IsSnapshot :
      (to_lower : Bytes → Bytes) (m : Msg fl)
      → valid_msg fl to_lower m ≡ true
      → m.type ≡ ascii "t"
      → IsSnapshot m
  valid_msg-IsSnapshot to_lower m h e =
      frame-IsSnapshot m (sym (valid_body-frame to_lower m e) ∙ valid_msg-body to_lower m h)

  checked-valid_msg :
      (d : Decoder fl) (m m' : Msg fl)
      → checked fl d m ≡ some m'
      → (valid_msg fl d.to_lower m' ≡ true) × (m ≡ m')
  unfolding checked
  checked-valid_msg d m m' h = ground arith

  fields-valid_msg :
      (d : Decoder fl) (bytes : Bytes) (m m' : Msg fl)
      → parse_fields fl d bytes m ≡ some m'
      → (valid_msg fl d.to_lower m' ≡ true) × (lowered fl d m ≡ m')
  unfolding parse_fields
  fields-valid_msg d bytes m m' h = ground (arith, checked-valid_msg d (lowered fl d m) m')

  pub parse-valid_msg :
      (d : Decoder fl) (bytes : Bytes) (m : Msg fl)
      → parse fl d bytes ≡ some m
      → valid_msg fl d.to_lower m ≡ true
  unfolding parse
  parse-valid_msg d bytes m h = elim (Option-cases (d.unmarshal bytes)) [
    | inl e ↦ ground arith
    | inr (m', e) ↦ ground (arith, fields-valid_msg d bytes m' m)
  ]
