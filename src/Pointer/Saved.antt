-- ===== src/Pointer/Saved.antt =====
-- What a saved calibration loads as.
use phonepad.Base.{
  Bool, Bool-cases, Bytes, Option, ap, arith, bytes_eq, bytes_eq_iff, get, get-put_if,
  if◌then◌else◌, inl, inr, length, none, not, put, refl, some, subst, sym, true, ◌<◌, ◌∙◌, ◌≡◌, ◌≤◌,
}
use phonepad.Pointer.Geometry.{PointerMath, PointerGeometry}
use phonepad.Pointer.Calibration.{
  Devices, valid_device_id, valid_devices, valid_geometry, Document, File, Read, document_with,
  existing, holds, save_calibration, fails, found, invalid_calibration, load_calibration,
  max_calibration_bytes, missing, profile_of, read_document, unreadable, profile_at, schema_version,
}
use phonepad.Pointer.Decoded.{
  IsDecoded, entries-valid, plain_entry, plain_loaded, profile_at-plain, valid_devices-put,
  valid_geometry-epoch,
}

module _ (pm : PointerMath) where
  module _ (parse : Bytes → Option (Document pm)) (print : Document pm → Bytes) where
    saved_devices :
        (file : File) (id : Bytes) (g : PointerGeometry pm) (writes : Bool) (bytes : Bytes)
        → save_calibration pm parse print file id g writes ≡ (holds bytes, none)
        → (ds : Devices pm) × (existing pm parse print file ≡ inr ds)
          × (bytes ≡ print (document_with pm parse print id g ds))
          × (valid_device_id id ≡ true)
          × (valid_geometry pm g ≡ true)
    unfolding save_calibration
    saved_devices file id g writes bytes h = go (existing pm parse print file) refl
      where
        go :
            (r : Read pm)
            → existing pm parse print file ≡ r
            → (ds : Devices pm) × (existing pm parse print file ≡ inr ds)
              × (bytes ≡ print (document_with pm parse print id g ds))
              × (valid_device_id id ≡ true)
              × (valid_geometry pm g ≡ true)
        go (inl e) k = ground arith
        go (inr ds) k = (ds, k, ground arith, ground arith, ground arith)

    read_document-valid :
        (bytes : Bytes) (ds : Devices pm)
        → read_document pm parse print bytes ≡ inr ds
        → valid_devices pm ds ≡ true
    unfolding read_document
    read_document-valid bytes ds h = ground arith

    existing-valid :
        (file : File) (ds : Devices pm)
        → existing pm parse print file ≡ inr ds
        → valid_devices pm ds ≡ true
    unfolding valid_devices
    existing-valid missing ds h = ground arith
    existing-valid unreadable ds h = ground arith
    existing-valid (holds bytes) ds h = read_document-valid bytes ds h

    load-existing :
        (file : File) (id : Bytes) (ds : Devices pm)
        → existing pm parse print file ≡ inr ds
        → load_calibration pm parse print file id ≡ (
            if not (valid_device_id id)
            then fails invalid_calibration
            else profile_of pm parse print id (inr ds))
    unfolding load_calibration get profile_at
    load-existing missing id ds h = ground arith
    load-existing unreadable id ds h = ground arith
    load-existing (holds bytes) id ds h = rw h

    profile-put :
        (id other : Bytes) (g : PointerGeometry pm) (ds : Devices pm)
        → valid_device_id id ≡ true
        → g.geometry_epoch ≡ 0
        → valid_geometry pm g ≡ true
        → (if not (valid_device_id other)
            then fails invalid_calibration
            else profile_of pm parse print other (inr (put id g ds)))
          ≡ (if bytes_eq id other
              then found g
              else if not (valid_device_id other)
              then fails invalid_calibration
              else profile_of pm parse print other (inr ds))
    unfolding profile_at
    profile-put id other g ds named e good = elim (Bool-cases (bytes_eq id other)) [
      | inl same ↦
          let equal = (bytes_eq_iff id other).0 same in
          let named' : valid_device_id other ≡ true =
            subst (λ t. valid_device_id t ≡ true) equal named in
          let kept : get other (put id g ds) ≡ some g = get-put_if other id g ds ∙ rw same in
          rw (same, named', kept) (ground arith)
      | inr differs ↦
          let kept : get other (put id g ds) ≡ get other ds =
            get-put_if other id g ds ∙ rw differs in
          rw (differs, kept)
    ]

    -- encoding/json reads what it wrote, if every device in it is valid.
    abbrev pub ReadsBack : Bytes → Type 0
    ReadsBack bytes =
        (ds : Devices pm)
        → valid_devices pm ds ≡ true
        → bytes ≡ print (record { version = schema_version; devices = some ds })
        → (read : Devices pm) × (parse bytes
            ≡ some (record { version = schema_version; devices = some read }))
          × IsDecoded pm ds read

    read-printed :
        (bytes : Bytes) (ds : Devices pm)
        → parse bytes ≡ some (record { version = schema_version; devices = some ds })
        → 0 < length bytes
        → length bytes ≤ max_calibration_bytes
        → valid_devices pm ds ≡ true
        → read_document pm parse print bytes ≡ inr ds
    unfolding read_document
    read-printed bytes ds p some_bytes few v = ground arith

    profile_of-decoded :
        (ds read : Devices pm) (other : Bytes)
        → pm.is_zero (pm.hundredths 0) ≡ true
        → valid_devices pm ds ≡ true
        → get other read ≡ plain_entry pm (get other ds)
        → (if not (valid_device_id other)
            then fails invalid_calibration
            else profile_of pm parse print other (inr read))
          ≡ plain_loaded pm (
              if not (valid_device_id other)
              then fails invalid_calibration
              else profile_of pm parse print other (inr ds))
    profile_of-decoded ds read other nought v same = elim (Bool-cases (valid_device_id other)) [
      | inl e ↦ rw e (ap (profile_at pm) same ∙ profile_at-plain pm nought other ds v)
      | inr e ↦ rw e refl
    ]

    -- A calibration that was saved loads as it was given, without its epoch, and every other device
    -- loads as before, each with its zero width and height as plain zeros, if JSON reads back what it
    -- wrote, the literal 0 is a zero, and the file is not empty and no longer than what is read.
    pub load-save :
        (file : File) (id other : Bytes) (g : PointerGeometry pm) (writes : Bool) (bytes : Bytes)
        → pm.is_zero (pm.hundredths 0) ≡ true
        → ReadsBack bytes
        → save_calibration pm parse print file id g writes ≡ (holds bytes, none)
        → 0 < length bytes
        → length bytes ≤ max_calibration_bytes
        → load_calibration pm parse print (holds bytes) other
          ≡ plain_loaded pm (
              if bytes_eq id other
              then found (record g { geometry_epoch = 0 })
              else load_calibration pm parse print file other)
    load-save file id other g writes bytes nought reads saved some_bytes few =
        let (ds, was, written, named, good) = saved_devices file id g writes bytes saved in
        let g' = record g { geometry_epoch = 0 } in
        let good' : valid_geometry pm g' ≡ true = valid_geometry-epoch pm g ∙ good in
        let all = put id g' ds in
        let v : valid_devices pm all ≡ true =
          valid_devices-put pm id g' ds (existing-valid file ds was) named refl good' in
        let (read, parsed, decoded) = reads all v written in
        let now =
          read-printed bytes read parsed some_bytes few
            (entries-valid pm nought all read v decoded.0 read decoded.1) in
        load-existing (holds bytes) other read now
        ∙ profile_of-decoded all read other nought v (decoded.0 other)
        ∙ ap (plain_loaded pm) (
            profile-put id other g' ds named refl good'
            ∙ ap (λ t. if bytes_eq id other then found g' else t)
                (sym (load-existing file other ds was)))
