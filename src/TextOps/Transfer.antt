-- ===== src/TextOps/Transfer.antt =====
-- TextTransfer of daemon/internal/inputops/text.go. A method returns the transfer after the call;
-- the mutex makes each call one step. `sum256` stands for crypto/sha256.
pub mod History
pub mod Invariant
pub mod Release
pub mod Retry
pub mod Upload
use phonepad.Base.{
  Bool, Bytes, List, Option, [], bytes_eq, eq_ℤ, false, get_elem?, if◌then◌else◌, leb, length, ltb,
  ltb_ℤ, negsuc, none, not, pos, some, true, ℕ, ℤ, ◌&&◌, ◌++◌, ◌+◌, ◌==◌, ◌||◌, ◌∷◌,
}
use phonepad.TextOps.Hex.{hex_encode}
use phonepad.TextOps.Utf8.{utf8_valid}
use phonepad.TextOps.Manifest.{Manifest, max_chunk_bytes, max_chunks}

pub data State : Type 0 where
  receiving ready dispatching dispatched uncertain rejected cancelled : State

pub data Error : Type 0 where
  invalid conflict incomplete capacity wrong_state : Error

pub record Chunk : Type 0 where
  pub size : ℕ
  pub digest : Bytes

-- A nil payload is the empty list.
pub record TextTransfer : Type 0 where
  pub manifest : Manifest
  pub state : State
  pub payload : Bytes
  pub chunks : List Chunk
  pub received : ℕ

pub record Receipt : Type 0 where
  pub manifest : Manifest
  pub state : State
  pub received_bytes : ℕ
  pub next_chunk : ℕ

unfoldable pub new_transfer : Manifest → TextTransfer
new_transfer m = record { manifest = m; state = receiving; payload = []; chunks = []; received = 0 }

abbrev pub receipt : TextTransfer → Receipt
receipt t = record {
  manifest = t.manifest;
  state = t.state;
  received_bytes = t.received;
  next_chunk = length t.chunks;
}

abbrev pub is_receiving : State → Bool
is_receiving receiving = true
is_receiving _ = false

abbrev pub is_ready : State → Bool
is_ready ready = true
is_ready _ = false

abbrev pub is_dispatching : State → Bool
is_dispatching dispatching = true
is_dispatching _ = false

-- The states that an adapter's result may be recorded as.
abbrev is_outcome : State → Bool
is_outcome dispatched = true
is_outcome uncertain = true
is_outcome rejected = true
is_outcome _ = false

-- Every method returns the receipt of the transfer that it leaves.
abbrev pub Reply : Type 0
Reply = TextTransfer × Receipt × Option Error

abbrev reply : TextTransfer → Option Error → Reply
reply t e = (t, receipt t, e)

-- bytes.IndexByte(payload, 0) >= 0
unfoldable pub has_nul : Bytes → Bool
has_nul [] = false
has_nul (b ∷ s) = b == 0 || has_nul s

module _ (sum256 : Bytes → Bytes) where
  append_next : TextTransfer → ℕ → Bytes → Reply
  append_next t i bytes =
      if not (is_receiving t.state)
      then reply t (some wrong_state)
      else if not (i == length t.chunks)
      then reply t (some incomplete)
      else if ltb_ℤ t.manifest.bytes (pos (t.received + length bytes))
      then reply t (some invalid)
      else reply
          (record t {
            payload = t.payload ++ bytes;
            received = t.received + length bytes;
            chunks = t.chunks ++ record { size = length bytes; digest = sum256 bytes } ∷ [];
          })
          none

  abbrev same_chunk : Chunk → Bytes → Bool
  same_chunk old bytes = old.size == length bytes && bytes_eq old.digest (sum256 bytes)

  append_at : TextTransfer → ℕ → Bytes → Reply
  unfolding append_next
  append_at t i bytes = elim (get_elem? t.chunks i) [
    | some old ↦ if same_chunk old bytes then reply t none else reply t (some conflict)
    | none ↦ append_next t i bytes
  ]

  -- `index < len(t.chunks)` and the read of `t.chunks[index]` are one lookup.
  unfoldable pub append : TextTransfer → ℤ → Bytes → Reply
  unfolding append_at
  append t (negsuc n) bytes = reply t (some invalid)
  append t (pos i) bytes =
      if leb max_chunks i || length bytes == 0 || ltb max_chunk_bytes (length bytes)
      then reply t (some invalid)
      else append_at t i bytes

  abbrev pub acceptable : Manifest → Bytes → Bool
  acceptable m text =
      bytes_eq (hex_encode (sum256 text)) m.sha256 && utf8_valid text && not (has_nul text)

  unfoldable pub commit : TextTransfer → Reply
  commit t =
      if not (is_receiving t.state)
      then reply t none
      else if not (eq_ℤ (pos t.received) t.manifest.bytes)
      then reply t (some incomplete)
      else if not (acceptable t.manifest t.payload)
      then reply (record t { state = rejected; payload = [] }) (some invalid)
      else reply (record t { state = ready }) none

-- The text that is released, if any.
unfoldable pub claim : TextTransfer → TextTransfer × Option Bytes
claim t =
    if not (is_ready t.state)
    then (t, none)
    else (record t { state = dispatching; payload = [] }, some t.payload)

unfoldable pub finish : TextTransfer → State → Reply
finish t state =
    if not (is_dispatching t.state) || not (is_outcome state)
    then reply t (some wrong_state)
    else reply (record t { state = state }) none

unfoldable pub cancel : TextTransfer → Reply
cancel t =
    if not (is_receiving t.state) && not (is_ready t.state)
    then reply t (some wrong_state)
    else reply (record t { state = cancelled; payload = [] }) none

-- The body of the loop in Registry.Retire.
unfoldable pub retire_transfer : TextTransfer → TextTransfer
retire_transfer t =
    let t' =
      if is_receiving t.state || is_ready t.state
      then record t { state = cancelled; payload = [] }
      else t in
    if is_dispatching t'.state then record t' { state = uncertain } else t'
