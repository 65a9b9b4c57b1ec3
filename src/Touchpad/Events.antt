-- ===== src/Touchpad/Events.antt =====
-- evt, mtState and its methods of daemon/internal/input/touchpad.go. A method that changes the state
-- returns the events and the new state.
use phonepad.Base.{
  Bool, List, Option, [], eq_ℤ, false, if◌then◌else◌, length, ltb, negsuc, none, not, pos, set,
  some, suc, true, zero, ℕ, ℤ, ◌&&◌, ◌++◌, ◌==◌, ◌||◌, ◌∷◌,
}
use phonepad.Floats.{FloatOps}

-- typ and code are uint16 constants; val is an int32.
pub record Evt : Type 0 where
  pub typ : ℕ
  pub code : ℕ
  pub val : ℤ

abbrev pub ev_syn : ℕ
ev_syn = 0x00

abbrev pub ev_key : ℕ
ev_key = 0x01

abbrev pub ev_abs : ℕ
ev_abs = 0x03

abbrev pub syn_report : ℕ
syn_report = 0x00

abbrev pub btn_touch : ℕ
btn_touch = 0x14a

abbrev pub btn_tool_finger : ℕ
btn_tool_finger = 0x145

abbrev pub btn_tool_doubletap : ℕ
btn_tool_doubletap = 0x14d

abbrev pub btn_tool_tripletap : ℕ
btn_tool_tripletap = 0x14e

abbrev pub btn_tool_quadtap : ℕ
btn_tool_quadtap = 0x14f

abbrev pub btn_tool_quinttap : ℕ
btn_tool_quinttap = 0x148

abbrev pub abs_x : ℕ
abs_x = 0x00

abbrev pub abs_y : ℕ
abs_y = 0x01

abbrev pub abs_mt_slot : ℕ
abs_mt_slot = 0x2f

abbrev pub abs_mt_position_x : ℕ
abs_mt_position_x = 0x35

abbrev pub abs_mt_position_y : ℕ
abs_mt_position_y = 0x36

abbrev pub abs_mt_tool_type : ℕ
abs_mt_tool_type = 0x37

abbrev pub abs_mt_tracking_id : ℕ
abs_mt_tracking_id = 0x39

abbrev pub mt_tool_finger : ℕ
mt_tool_finger = 0

abbrev pub mt_tool_palm : ℕ
mt_tool_palm = 2

abbrev pub max_slots : ℕ
max_slots = 5

-- -1, both the mark of a free slot and the tracking identifier that lifts a contact.
abbrev pub free : ℤ
free = negsuc 0

abbrev pub is_free : ℤ → Bool
is_free sid = eq_ℤ sid free

abbrev pub evt : ℕ → ℕ → ℤ → Evt
evt typ code val = record { typ = typ; code = code; val = val }

abbrev pub sync : Evt
sync = evt ev_syn syn_report (pos 0)

-- `slot_id` has a place for each of the `max_slots` slots; `count` is a length, never negative.
pub record MtState : Type 0 where
  pub max_x : ℤ
  pub max_y : ℤ
  pub slot_id : List ℤ
  pub next_tid : ℤ
  pub count : ℕ

abbrev pub no_slots : List ℤ
no_slots = free ∷ free ∷ free ∷ free ∷ free ∷ []

unfoldable pub new_mt_state : ℤ → ℤ → MtState
new_mt_state max_x max_y = record {
  max_x = max_x;
  max_y = max_y;
  slot_id = no_slots;
  next_tid = pos 1;
  count = 0;
}

-- The first slot that holds `id`.
unfoldable pub slot_of : ℤ → List ℤ → Option ℕ
slot_of id [] = none
slot_of id (sid ∷ ss) =
    if eq_ℤ sid id then some 0 else elim (slot_of id ss) [ none ↦ none | some i ↦ some (suc i) ]

-- assign: the slot with isNew, and the slots after it. No slot is the source's -1.
unfoldable pub assign : List ℤ → ℤ → Option (ℕ × Bool) × List ℤ
assign ss id = elim (slot_of id ss) [
  | some i ↦ (some (i, false), ss)
  | none ↦ elim (slot_of free ss) [ some i ↦ (some (i, true), set ss i id) | none ↦ (none, ss) ]
]

-- An int32 that is counted up wraps around.
abbrev pub next_int32 : ℤ → ℤ
next_int32 (pos n) = if n == 2147483647 then negsuc 2147483647 else pos (suc n)
next_int32 (negsuc zero) = pos 0
next_int32 (negsuc (suc n)) = negsuc n

unfoldable pub tool_bit : ℕ → ℕ
tool_bit n =
    if n == 1
    then btn_tool_finger
    else if n == 2
    then btn_tool_doubletap
    else if n == 3
    then btn_tool_tripletap
    else if n == 4
    then btn_tool_quadtap
    else btn_tool_quinttap

-- The end of `frame`: what changes when `old` fingers become `n`.
unfoldable pub count_events : ℕ → ℕ → List Evt
count_events old n =
    if n == old
    then []
    else (if ltb 0 old then evt ev_key (tool_bit old) (pos 0) ∷ [] else [])
      ++ (if ltb 0 n then evt ev_key (tool_bit n) (pos 1) ∷ [] else [])
      ++ (if old == 0 && ltb 0 n
          then evt ev_key btn_touch (pos 1) ∷ []
          else if ltb 0 old && n == 0
          then evt ev_key btn_touch (pos 0) ∷ []
          else [])

abbrev pub all_bits : List ℕ
all_bits =
    btn_tool_finger ∷ btn_tool_doubletap ∷ btn_tool_tripletap ∷ btn_tool_quadtap ∷ btn_tool_quinttap
    ∷ btn_touch ∷ []

unfoldable pub key_releases : List ℕ → List Evt
key_releases [] = []
key_releases (code ∷ codes) = evt ev_key code (pos 0) ∷ key_releases codes

-- The loops of `cancel` over the occupied slots, from slot `i` on.
unfoldable pub slot_marks : ℕ → ℕ → ℤ → List ℤ → List Evt
slot_marks i code val [] = []
slot_marks i code val (sid ∷ ss) =
    let rest = slot_marks (suc i) code val ss in
    if is_free sid then rest else evt ev_abs abs_mt_slot (pos i) ∷ evt ev_abs code val ∷ rest

-- The loop of `hardReset` over every slot.
unfoldable pub slot_lifts : ℕ → List ℤ → List Evt
slot_lifts i [] = []
slot_lifts i (sid ∷ ss) =
    evt ev_abs abs_mt_slot (pos i) ∷ evt ev_abs abs_mt_tracking_id free ∷ slot_lifts (suc i) ss

unfoldable pub active : List ℤ → ℕ
active [] = 0
active (sid ∷ ss) = let n = active ss in if is_free sid then n else suc n

abbrev pub cleared : MtState → MtState
cleared s = record s { slot_id = no_slots; next_tid = pos 1; count = 0 }

unfoldable pub cancel : MtState → List Evt × MtState
cancel s =
    if active s.slot_id == 0 then (sync ∷ [], record s { count = 0; next_tid = pos 1 }) else (
      slot_marks 0 abs_mt_tool_type (pos mt_tool_palm) s.slot_id
          ++ (sync
              ∷ (slot_marks 0 abs_mt_tracking_id free s.slot_id
                  ++ (key_releases all_bits ++ sync ∷ []))),
      cleared s,
    )

unfoldable pub reset : MtState → List Evt × MtState
reset s = cancel s

unfoldable pub hard_reset : MtState → List Evt × MtState
hard_reset s = (slot_lifts 0 no_slots ++ (key_releases all_bits ++ sync ∷ []), cleared s)

module _ (fl : FloatOps) where
  open fl use {Float, less, zero_point, one, half, times, plus, of_int32, to_int32}

  pub record Contact : Type 0 where
    pub id : ℤ
    pub x : Float
    pub y : Float

  -- Go converts an int32 to float64, and back by truncation.
  unfoldable pub scale : Float → ℤ → ℤ
  scale v max =
      let v' = if less v zero_point then zero_point else if less one v then one else v in
      to_int32 (plus (times v' (of_int32 max)) half)

  unfoldable pub present : List Contact → ℤ → Bool
  present [] id = false
  present (c ∷ cs) id = eq_ℤ c.id id || present cs id

  -- Step 1 of `frame`: slots whose contact is gone.
  unfoldable pub lifts : ℕ → List ℤ → List Contact → List Evt × List ℤ
  lifts i [] cs = ([], [])
  lifts i (sid ∷ ss) cs =
      let (ev, ss') = lifts (suc i) ss cs in
      if not (is_free sid) && not (present cs sid)
      then (evt ev_abs abs_mt_slot (pos i) ∷ evt ev_abs abs_mt_tracking_id free ∷ ev, free ∷ ss')
      else (ev, sid ∷ ss')

  abbrev new_events : Bool → ℤ → List Evt
  new_events false tid = []
  new_events true tid =
      evt ev_abs abs_mt_tool_type (pos mt_tool_finger) ∷ evt ev_abs abs_mt_tracking_id tid ∷ []

  abbrev used_tid : Bool → ℤ → ℤ
  used_tid false tid = tid
  used_tid true tid = next_int32 tid

  position_events : MtState → Contact → List Evt
  position_events s c =
      evt ev_abs abs_mt_position_x (scale c.x s.max_x)
      ∷ evt ev_abs abs_mt_position_y (scale c.y s.max_y)
      ∷ []

  unfoldable pub placed : MtState → Contact → Option (ℕ × Bool) → List ℤ → List Evt × MtState
  unfolding position_events
  placed s c none ss = ([], s)
  placed s c (some (slot, is_new)) ss = (
    evt ev_abs abs_mt_slot (pos slot) ∷ (new_events is_new s.next_tid ++ position_events s c),
    record s { slot_id = ss; next_tid = used_tid is_new s.next_tid },
  )

  -- Step 2 of `frame` for one contact.
  unfoldable pub place : MtState → Contact → List Evt × MtState
  unfolding placed
  place s c = let (slot, ss) = assign s.slot_id c.id in placed s c slot ss

  unfoldable pub place_all : MtState → List Contact → List Evt × MtState
  place_all s [] = ([], s)
  place_all s (c ∷ cs) =
      let (ev, s') = place s c in let (ev', s'') = place_all s' cs in (ev ++ ev', s'')

  unfoldable pub pointer_events : MtState → List Contact → List Evt
  pointer_events s [] = []
  pointer_events s (c ∷ cs) =
      evt ev_abs abs_x (scale c.x s.max_x) ∷ evt ev_abs abs_y (scale c.y s.max_y) ∷ []

  unfoldable pub frame : MtState → List Contact → List Evt × MtState
  unfolding pointer_events
  frame s cs =
      let (ev, ss) = lifts 0 s.slot_id cs in
      let (ev', s') = place_all (record s { slot_id = ss }) cs in
      (
        ev ++ (ev' ++ (pointer_events s cs ++ (count_events s.count (length cs) ++ sync ∷ []))),
        record s' { count = length cs },
      )
