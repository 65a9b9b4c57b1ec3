-- ===== src/Pointer/Calibration.antt =====
-- The calibration file of daemon/internal/input/pointer_geometry.go. `encoding/json` is a parameter:
-- `parse` is `none` if a document does not decode strictly or if something follows it.
use phonepad.Base.{
  Bool, Bytes, List, Option, [], ascii, bytes_eq, eq_ℤ, false, get, if◌then◌else◌, inl, inr, leb,
  length, ltb, none, not, pos, put, some, true, ℕ, ℤ, ◌&&◌, ◌*◌, ◌==◌, ◌||◌, ◌∷◌, ◌⊎◌,
}
use phonepad.Pointer.Geometry.{PointerMath, PointerGeometry}

pub data CalibrationError : Type 0 where
  invalid_calibration unsupported_calibration io_error : CalibrationError

abbrev pub schema_version : ℤ
schema_version = pos 1

abbrev pub max_calibration_bytes : ℕ
max_calibration_bytes = 64 * 1024

abbrev device_start : ℕ → Bool
device_start c = leb b'a' c && leb c b'z' || leb b'0' c && leb c b'9'

abbrev device_char : ℕ → Bool
device_char c = device_start c || c == b'.' || c == b'_' || c == b'-'

device_chars : Bytes → Bool
device_chars [] = true
device_chars (c ∷ s) = device_char c && device_chars s

-- ^[a-z0-9][a-z0-9._-]{0,63}$
unfoldable pub valid_device_id : Bytes → Bool
unfolding device_chars
valid_device_id [] = false
valid_device_id (c ∷ s) = device_start c && leb (length s) 63 && device_chars s

-- What is at the path.
pub data File : Type 0 where
  missing unreadable : File
  holds : Bytes → File

module _ (pm : PointerMath) where
  open pm use {Float, less, is_zero, is_nan, is_inf, hundredths}

  abbrev finite : Float → Bool
  finite v = not (is_nan v) && not (is_inf v)

  -- ValidatePointerGeometry, as whether it accepts.
  unfoldable pub valid_geometry : PointerGeometry pm → Bool
  valid_geometry g = not (
      not (bytes_eq g.id (ascii "square-centered"))
      || not (bytes_eq g.kind (ascii "square-centered"))
      || not (finite g.side_mm)
      || not (finite g.gain_mm_per_point)
      || not (finite g.gain_min_mm_per_point)
      || not (finite g.gain_max_mm_per_point)
      || less g.side_mm (hundredths 5000)
      || less (hundredths 20000) g.side_mm
      || less g.gain_mm_per_point (hundredths 5)
      || less (hundredths 25) g.gain_mm_per_point
      || not (bytes_eq g.gain_source (ascii "calibrated"))
      || less g.gain_min_mm_per_point (hundredths 5)
      || less (hundredths 25) g.gain_max_mm_per_point
      || less g.gain_max_mm_per_point g.gain_min_mm_per_point
      || less g.gain_mm_per_point g.gain_min_mm_per_point
      || less g.gain_max_mm_per_point g.gain_mm_per_point
      || not (is_zero g.width_mm)
      || not (is_zero g.height_mm))

  -- A map of Go by its `get` and `put`; the order of the list means nothing, and `print` need not
  -- keep it.
  abbrev pub Devices : Type 0
  Devices = List (Bytes × PointerGeometry pm)

  -- A nil map is `none`.
  pub record Document : Type 0 where
    pub version : ℤ
    pub devices : Option Devices

  pub data Loaded : Type 0 where
    fails : CalibrationError → Loaded
    absent : Loaded
    found : PointerGeometry pm → Loaded

  -- validatePointerCalibrationDocument, as whether it accepts.
  unfoldable pub valid_devices : Devices → Bool
  valid_devices [] = true
  valid_devices ((id, g) ∷ rest) =
      valid_device_id id && g.geometry_epoch == 0 && valid_geometry g && valid_devices rest

  abbrev pub Read : Type 0
  Read = CalibrationError ⊎ Devices

  abbrev pub checked : Document → Read
  checked document = elim document.devices [
    | none ↦ inl unsupported_calibration
    | some devices ↦
        if not (eq_ℤ document.version schema_version)
        then inl unsupported_calibration
        else if not (valid_devices devices)
        then inl invalid_calibration
        else inr devices
  ]

  -- The entry of the device.
  unfoldable pub profile_at : Option (PointerGeometry pm) → Loaded
  profile_at none = absent
  profile_at (some g) =
      if not (g.geometry_epoch == 0)
      then fails invalid_calibration
      else if not (valid_geometry g)
      then fails invalid_calibration
      else found g

  module _ (parse : Bytes → Option Document) (print : Document → Bytes) where
    -- The bytes of the file as a document; the part that loading and saving share.
    unfoldable pub read_document : Bytes → Read
    read_document bytes =
        if length bytes == 0 || ltb max_calibration_bytes (length bytes)
        then inl invalid_calibration
        else elim (parse bytes) [
          | none ↦ inl invalid_calibration
          | some document ↦ checked document
        ]

    abbrev pub profile_of : Bytes → Read → Loaded
    profile_of id (inl e) = fails e
    profile_of id (inr devices) = profile_at (get id devices)

    -- LoadPointerCalibration
    unfoldable pub load_calibration : File → Bytes → Loaded
    load_calibration file id =
        if not (valid_device_id id) then fails invalid_calibration else elim file [
          | missing ↦ absent
          | unreadable ↦ fails io_error
          | holds bytes ↦ profile_of id (read_document bytes)
        ]

    abbrev pub existing : File → Read
    existing missing = inr []
    existing unreadable = inl io_error
    existing (holds bytes) = read_document bytes

    -- What is written: the other devices as they were, and this one without its epoch.
    abbrev pub document_with : Bytes → PointerGeometry pm → Devices → Document
    document_with id g devices = record {
      version = schema_version;
      devices = some (put id (record g { geometry_epoch = 0 }) devices);
    }

    -- SavePointerCalibration: the file afterwards. The rename is the last step, so a step of the
    -- writing that fails leaves the file as it was.
    unfoldable pub save_calibration :
        File → Bytes → PointerGeometry pm → Bool → File × Option CalibrationError
    save_calibration file id g writes =
        if not (valid_device_id id)
        then (file, some invalid_calibration)
        else if not (valid_geometry g)
        then (file, some invalid_calibration)
        else elim (existing file) [
          | inl e ↦ (file, some e)
          | inr devices ↦
              if not writes
              then (file, some io_error)
              else (holds (print (document_with id g devices)), none)
        ]
