-- ===== src/Pointer/Decoded.antt =====
-- What a calibration document keeps of the devices that it is written from.
use phonepad.Base.{
  All, Bytes, Option, Option-cases, [], arith, bytes_eq_iff, get, inl, inr, none, put, refl, some,
  subst, sym, true, ◌&&◌, ◌==◌, ◌∙◌, ◌∷◌, ◌≡◌,
}
use phonepad.Pointer.Geometry.{PointerMath, PointerGeometry}
use phonepad.Pointer.Calibration.{
  Loaded, absent, Devices, valid_device_id, valid_devices, valid_geometry, fails, found, profile_at,
}

module _ (pm : PointerMath) where
  pub valid_geometry-epoch :
      (g : PointerGeometry pm)
      → valid_geometry pm (record g { geometry_epoch = 0 }) ≡ valid_geometry pm g
  unfolding valid_geometry
  valid_geometry-epoch g = refl

  pub valid_devices-put :
      (id : Bytes) (g : PointerGeometry pm) (ds : Devices pm)
      → valid_devices pm ds ≡ true
      → valid_device_id id ≡ true
      → g.geometry_epoch ≡ 0
      → valid_geometry pm g ≡ true
      → valid_devices pm (put id g ds) ≡ true
  unfolding valid_devices put
  valid_devices-put id g [] v i e h = ground arith
  valid_devices-put id g ((k, x) ∷ ds) v i e h = ground (arith, valid_devices-put id g ds)

  valid_devices-get :
      (id : Bytes) (g : PointerGeometry pm) (ds : Devices pm)
      → valid_devices pm ds ≡ true
      → get id ds ≡ some g
      → (g.geometry_epoch ≡ 0) × (valid_geometry pm g ≡ true)
  unfolding valid_devices get
  valid_devices-get id g [] v h = ground arith
  valid_devices-get id g ((k, x) ∷ ds) v h = ground (arith, valid_devices-get id g ds)

  valid_devices-id :
      (id : Bytes) (g : PointerGeometry pm) (ds : Devices pm)
      → valid_devices pm ds ≡ true
      → get id ds ≡ some g
      → valid_device_id id ≡ true
  unfolding valid_devices get
  valid_devices-id id g [] v h = ground arith
  valid_devices-id id g ((k, x) ∷ ds) v h =
      ground (arith, valid_devices-id id g ds, bytes_eq_iff k id)

  -- What the document keeps of a geometry that is valid: a width and a height that are zero are left
  -- out and read as 0, so that a negative zero loses its sign.
  abbrev pub plain : PointerGeometry pm → PointerGeometry pm
  plain g = record g { width_mm = pm.hundredths 0; height_mm = pm.hundredths 0 }

  abbrev pub plain_entry : Option (PointerGeometry pm) → Option (PointerGeometry pm)
  plain_entry none = none
  plain_entry (some g) = some (plain g)

  abbrev pub plain_loaded : Loaded pm → Loaded pm
  plain_loaded (fails e) = fails e
  plain_loaded absent = absent
  plain_loaded (found g) = found (plain g)

  -- The map that is read has the entries of the map that was written, each once. Their order, in
  -- which JSON sorts the keys and a map of Go means nothing, is free.
  abbrev pub IsDecoded : Devices pm → Devices pm → Type 0
  IsDecoded ds read =
      ((k : Bytes) → get k read ≡ plain_entry (get k ds)) × All (λ e. get e.0 read ≡ some e.1) read

  plain_entry-cases :
      (o : Option (PointerGeometry pm)) (g : PointerGeometry pm)
      → plain_entry o ≡ some g
      → (x : PointerGeometry pm) × (o ≡ some x) × (plain x ≡ g)
  plain_entry-cases none g h = ground arith
  plain_entry-cases (some x) g h = (x, refl, ground arith)

  module _ (nought : pm.is_zero (pm.hundredths 0) ≡ true) where
    valid_geometry-plain :
        (g : PointerGeometry pm) → valid_geometry pm g ≡ true → valid_geometry pm (plain g) ≡ true
    unfolding valid_geometry
    valid_geometry-plain g h = ground (arith, nought)

    pub entries-valid :
        (ds read : Devices pm)
        → valid_devices pm ds ≡ true
        → ((k : Bytes) → get k read ≡ plain_entry (get k ds))
        → (xs : Devices pm) → All (λ e. get e.0 read ≡ some e.1) xs
        → valid_devices pm xs ≡ true
    unfolding valid_devices
    entries-valid ds read v same [] all = refl
    entries-valid ds read v same ((k, g) ∷ xs) all =
        let (x, there, e) = plain_entry-cases (get k ds) g (sym (same k) ∙ all.0) in
        let (epoch, good) = valid_devices-get k x ds v there in
        let named = valid_devices-id k x ds v there in
        let rest = entries-valid ds read v same xs all.1 in
        let good' = valid_geometry-plain x good in
        subst
          (λ t.
            valid_device_id k && t.geometry_epoch == 0 && valid_geometry pm t && valid_devices pm xs
            ≡ true)
          e (ground (arith, epoch, good', named, rest))

    pub profile_at-plain :
        (k : Bytes) (ds : Devices pm)
        → valid_devices pm ds ≡ true
        → profile_at pm (plain_entry (get k ds)) ≡ plain_loaded (profile_at pm (get k ds))
    unfolding profile_at valid_geometry
    profile_at-plain k ds v = elim (Option-cases (get k ds)) [
      | inl e ↦ rw (e, profile_at) refl
      | inr (g, e) ↦
          let (epoch, good) = valid_devices-get k g ds v e in
          rw (e, epoch, good, valid_geometry-plain g good, profile_at) refl
    ]
