-- ===== src/Keyboard/Device.antt =====
-- uinputDevice of daemon/internal/input/input.go, for its keys and buttons. The uinput library writes
-- one or more records in a call; `vendor` says for each call, by its number, whether it succeeds and,
-- if not, how many records were accepted before it failed.
use Prim.Native.String.{String}
use phonepad.Base.{
  Bool, Bytes, List, Option, [], ascii, false, if◌then◌else◌, none, not, some, suc, true, zero, ℕ,
  ◌==◌, ◌||◌, ◌∷◌,
}

pub data ActionState : Type 0 where
  executed rejected uncertain : ActionState

pub record ActionResult : Type 0 where
  pub state : ActionState
  pub detail : Bytes

pub data VendorAnswer : Type 0 where
  done : VendorAnswer
  broken : ℕ → VendorAnswer

pub data Btn : Type 0 where
  left right middle : Btn

abbrev pub btn_eq : Btn → Btn → Bool
btn_eq left left = true
btn_eq right right = true
btn_eq middle middle = true
btn_eq _ _ = false

-- `held` and `btns` are the inventory of the program; `keys_down` and `btns_down` are what the
-- kernel has down, which the program cannot read.
pub record Device : Type 0 where
  pub has_kbd : Bool
  pub has_mouse : Bool
  pub held : List ℕ
  pub btns : Btn → Bool
  pub calls : ℕ
  pub keys_down : ℕ → Bool
  pub btns_down : Btn → Bool

abbrev pub has_code : ℕ → List ℕ → Bool
has_code c [] = false
has_code c (k ∷ ks) = k == c || has_code c ks

-- `delete(d.held, code)`
unfoldable pub without : ℕ → List ℕ → List ℕ
without c [] = []
without c (k ∷ ks) = let rest = without c ks in if k == c then rest else k ∷ rest

-- `d.held[code] = struct{}{}`
unfoldable pub remember_key : ℕ → Device → Device
remember_key c d = record d { held = if has_code c d.held then d.held else c ∷ d.held }

abbrev pub with_key : ℕ → Bool → (ℕ → Bool) → ℕ → Bool
with_key k v f c = if k == c then v else f c

abbrev pub with_btn : Btn → Bool → (Btn → Bool) → Btn → Bool
with_btn b v f c = if btn_eq b c then v else f c

-- What the kernel makes of a call: the last accepted record decides.
abbrev kernel_down : VendorAnswer → ℕ → (ℕ → Bool) → ℕ → Bool
kernel_down done k f = with_key k true f
kernel_down (broken zero) k f = f
kernel_down (broken (suc n)) k f = with_key k true f

abbrev kernel_up : VendorAnswer → ℕ → (ℕ → Bool) → ℕ → Bool
kernel_up done k f = with_key k false f
kernel_up (broken zero) k f = f
kernel_up (broken (suc n)) k f = with_key k false f

-- A press is written as a down and an up.
abbrev kernel_press : VendorAnswer → ℕ → (ℕ → Bool) → ℕ → Bool
kernel_press done k f = with_key k false f
kernel_press (broken zero) k f = f
kernel_press (broken (suc zero)) k f = with_key k true f
kernel_press (broken (suc (suc n))) k f = with_key k false f

abbrev kernel_btn : VendorAnswer → Btn → Bool → (Btn → Bool) → Btn → Bool
kernel_btn done b v f = with_btn b v f
kernel_btn (broken zero) b v f = f
kernel_btn (broken (suc n)) b v f = with_btn b v f

abbrev pub is_done : VendorAnswer → Bool
is_done done = true
is_done (broken n) = false

abbrev pub result : ActionState → String → ActionResult
result s detail = record { state = s; detail = ascii detail }

module _ (vendor : ℕ → VendorAnswer) where
  -- keyDownResult
  unfoldable pub key_down : Device → ℕ → Device × ActionResult
  unfolding remember_key
  key_down d c =
      let answer = vendor d.calls in
      let d' = record d { calls = suc d.calls; keys_down = kernel_down answer c d.keys_down } in
      if not d.has_kbd
      then (d, result rejected "keyboard_unavailable")
      else if is_done answer
      then (remember_key c d', result executed "uinput_keydown_complete")
      else (remember_key c d', result uncertain "uinput_keydown_interrupted")

  -- keyUpResult
  unfoldable pub key_up : Device → ℕ → Device × ActionResult
  unfolding remember_key without
  key_up d c =
      let answer = vendor d.calls in
      let d' = record d { calls = suc d.calls; keys_down = kernel_up answer c d.keys_down } in
      if not d.has_kbd
      then (record d { held = without c d.held }, result executed "keyboard_unavailable")
      else if is_done answer
      then (record d' { held = without c d.held }, result executed "uinput_keyup_complete")
      else (remember_key c d', result uncertain "uinput_keyup_interrupted")

  -- keyPressResult
  unfoldable pub key_press : Device → ℕ → Device × ActionResult
  unfolding remember_key
  key_press d c =
      let answer = vendor d.calls in
      let d' = record d { calls = suc d.calls; keys_down = kernel_press answer c d.keys_down } in
      if not d.has_kbd
      then (d, result rejected "keyboard_unavailable")
      else if is_done answer
      then (d', result executed "uinput_keypress_complete")
      else (remember_key c d', result uncertain "uinput_keypress_interrupted")

  -- A button without a mouse, or of another name, is ignored.
  unfoldable pub button : Device → Option Btn → Bool → Device
  button d none down = d
  button d (some b) down =
      let answer = vendor d.calls in
      let d' = record d { calls = suc d.calls; btns_down = kernel_btn answer b down d.btns_down } in
      if not d.has_mouse
      then d
      else record d' { btns = with_btn b (if is_done answer then down else true) d.btns }

  -- The release of one button in resetLocked.
  unfoldable pub reset_btn : Device → Btn → Device
  reset_btn d b =
      let answer = vendor d.calls in
      let d' = record d {
        calls = suc d.calls;
        btns_down = kernel_btn answer b false d.btns_down;
      } in
      if not d.has_mouse || not (d.btns b)
      then d
      else if is_done answer
      then record d' { btns = with_btn b false d.btns }
      else d'

  unfoldable pub release_keys : Device → List ℕ → Device
  release_keys d [] = d
  release_keys d (c ∷ cs) = release_keys (key_up d c).0 cs

  -- resetLocked, for buttons and keys.
  unfoldable pub reset : Device → Device
  reset d =
      let d' = reset_btn (reset_btn (reset_btn d left) right) middle in release_keys d' d'.held
