-- ===== src/Pointer/Tests.antt =====
-- The theorems on the pointer at concrete inputs, over whole numbers of hundredths of a millimetre.
use native.Mathlib.Decide.{ℕ_discrete}
use phonepad.Base.{
  Bool, Bytes, List, Option, [], arith, ascii, bytes_eq, bytes_eq_iff, false, get, if◌then◌else◌,
  leb, ltb, none, pos, put, refl, some, subst, true, ℕ, ◌*◌, ◌+◌, ◌-◌, ◌==◌, ◌∷◌, ◌≡◌, ◌⊎◌,
}
use phonepad.Pointer.Geometry.{PointerMath, Contact, PointerGeometry}
use phonepad.Pointer.Calibration.{
  Devices, read_document, valid_devices, Document, found, holds, load_calibration, save_calibration,
  valid_device_id, valid_geometry,
}
use phonepad.Pointer.LinearTouch.{
  Input, Effect, click, contacts_frame, frame, frames, lets_go, lift_frame, moves, new_linear_touch,
  one_or_none, presses, release, run, single_frame, step, touch_down, touch_move,
}
use phonepad.Pointer.Effects.{held, asked, lost_release, fingers, Alternates}
use phonepad.Pointer.Held.{lift_releases}
use phonepad.Pointer.Motion.{motions-run, lost, motion_of, motions, never}
use phonepad.Pointer.Saved.{load-save, ReadsBack}
use phonepad.Pointer.Decoded.{IsDecoded, plain_loaded}

abbrev whole : PointerMath
whole = record {
  Float = ℕ;
  minus = λ a b. a - b;
  times = λ a b. a * b;
  hypot = λ a b. a + b;
  less = ltb;
  at_most = leb;
  is_zero = λ a. a == 0;
  is_nan = λ a. false;
  is_inf = λ a. false;
  hundredths = λ n. n;
}

abbrev finger : ℕ → ℕ → Contact whole
finger x y = record { id = pos 1; x = x; y = y }

abbrev square : PointerGeometry whole
square = record {
  id = ascii "square-centered";
  kind = ascii "square-centered";
  width_mm = 0;
  height_mm = 0;
  side_mm = 5000;
  gain_mm_per_point = 10;
  gain_source = ascii "calibrated";
  gain_min_mm_per_point = 5;
  gain_max_mm_per_point = 25;
  geometry_epoch = 3;
}

-- A tap, and then a drag.
abbrev inputs : List (Input whole)
inputs =
    frames (finger 1 1 ∷ []) square 10
    ∷ frames [] square 20
    ∷ frames (finger 1 1 ∷ []) square 30
    ∷ frames (finger 4 1 ∷ []) square 40
    ∷ []

abbrev always : List (Effect whole) → Bool
always es = true

run-inputs :
    (run whole (never whole) (new_linear_touch whole (finger 0 0)) inputs).effects
    ≡ moves 30000000 0 ∷ presses ∷ lets_go ∷ presses ∷ []
unfolding run step frame new_linear_touch contacts_frame one_or_none single_frame lift_frame click
    release touch_down touch_move bytes_eq
run-inputs = refl

lift_releases_example :
    let p =
      frame whole always
        (run whole always (new_linear_touch whole (finger 0 0)) inputs)
        []
        square
        50 in
    Alternates whole p.effects
    × (asked whole p.effects ≡ false)
    × (fingers whole p.effects ≡ false)
    × ((held whole always p.effects ≡ false)
        ⊎ ((lost_release whole always p.effects ≡ true) × (p.blocked ≡ true)))
lift_releases_example = lift_releases whole always (finger 0 0) inputs square 50

motions-run_example :
    motions whole (run whole (never whole) (new_linear_touch whole (finger 0 0)) inputs).effects
    ≡ motion_of whole (lost whole) inputs []
motions-run_example = motions-run whole (finger 0 0) inputs

Document-discrete : Discrete (Document whole)
Document-discrete = hlevel ℕ_discrete

abbrev calibrated : PointerGeometry whole
calibrated = record square { geometry_epoch = 0 }

abbrev only_b : Devices whole
only_b = (ascii "b", record calibrated { side_mm = 6000 }) ∷ []

-- The two devices in the order in which they were saved, and with their keys sorted.
abbrev b_then_a : Devices whole
b_then_a = (ascii "b", record calibrated { side_mm = 6000 }) ∷ (ascii "a", calibrated) ∷ []

abbrev a_then_b : Devices whole
a_then_b = (ascii "a", calibrated) ∷ (ascii "b", record calibrated { side_mm = 6000 }) ∷ []

abbrev document_of : Devices whole → Document whole
document_of ds = record { version = pos 1; devices = some ds }

-- A stand-in for JSON that knows two maps and prints both orders of the second one alike.
abbrev one_if : {P Q : Type 0} → Dec P → Dec Q → Bytes
one_if (yes _) e = 1 ∷ []
one_if (no _) (yes _) = 1 ∷ []
one_if (no _) (no _) = 3 ∷ []

abbrev print_saved : Document whole → Bytes
print_saved d =
    one_if (Document-discrete d (document_of b_then_a)) (Document-discrete d (document_of a_then_b))

abbrev parse_saved : Bytes → Option (Document whole)
parse_saved b =
    if bytes_eq b (1 ∷ [])
    then some (document_of a_then_b)
    else if bytes_eq b (2 ∷ [])
    then some (document_of only_b)
    else none

b_then_a-IsDecoded : IsDecoded whole b_then_a a_then_b
unfolding get bytes_eq
b_then_a-IsDecoded = (
  λ k. ground (arith, bytes_eq_iff (ascii "a") k, bytes_eq_iff (ascii "b") k),
  (refl, (refl, tt)),
)

a_then_b-IsDecoded : IsDecoded whole a_then_b a_then_b
unfolding get bytes_eq
a_then_b-IsDecoded = (
  λ k. ground (arith, bytes_eq_iff (ascii "a") k, bytes_eq_iff (ascii "b") k),
  (refl, (refl, tt)),
)

reads_back : ReadsBack whole parse_saved print_saved (1 ∷ [])
unfolding bytes_eq
reads_back ds v h =
    go (Document-discrete (document_of ds) (document_of b_then_a))
      (Document-discrete (document_of ds) (document_of a_then_b)) h
  where
    go :
        (j : Dec (document_of ds ≡ document_of b_then_a))
        → (k : Dec (document_of ds ≡ document_of a_then_b)) → 1 ∷ [] ≡ one_if j k
        → (read : Devices whole) × (parse_saved (1 ∷ []) ≡ some (document_of read))
          × IsDecoded whole ds read
    go (yes e) k h' =
        let same : b_then_a ≡ ds = ground (arith, e) in
        (a_then_b, refl, subst (λ xs. IsDecoded whole xs a_then_b) same b_then_a-IsDecoded)
    go (no n) (yes e) h' =
        let same : a_then_b ≡ ds = ground (arith, e) in
        (a_then_b, refl, subst (λ xs. IsDecoded whole xs a_then_b) same a_then_b-IsDecoded)
    go (no n) (no m) h' = absurd (ground (arith, h'))

print_saved_lem : print_saved (document_of b_then_a) ≡ 1 ∷ []
print_saved_lem = go (Document-discrete (document_of b_then_a) (document_of b_then_a))
  where
    go :
        (k : Dec (document_of b_then_a ≡ document_of b_then_a))
        → one_if k (Document-discrete (document_of b_then_a) (document_of a_then_b)) ≡ 1 ∷ []
    go (yes e) = refl
    go (no n) = absurd (n refl)

saves :
    save_calibration whole parse_saved print_saved (holds (2 ∷ [])) (ascii "a") square true
    ≡ (holds (1 ∷ []), none)
unfolding save_calibration read_document valid_devices valid_device_id valid_geometry bytes_eq put
saves = rw print_saved_lem

load-save_example :
    load_calibration whole parse_saved print_saved (holds (1 ∷ [])) (ascii "b")
    ≡ plain_loaded whole (
        if bytes_eq (ascii "a") (ascii "b")
        then found calibrated
        else load_calibration whole parse_saved print_saved (holds (2 ∷ [])) (ascii "b"))
load-save_example =
    load-save whole parse_saved print_saved (holds (2 ∷ [])) (ascii "a") (ascii "b") square true
      (1 ∷ []) refl reads_back saves (omega arith) (omega arith)
