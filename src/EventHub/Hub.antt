-- ===== src/EventHub/Hub.antt =====
-- hub of daemon/internal/server/events.go: subscribers with a queue of eight events, and the state of
-- the connection. A payload is kept as a value; its JSON is not modelled.
use phonepad.Base.{
  Bool, Bytes, List, Option, [], false, if◌then◌else◌, length, ltb, none, some, true, ℕ, ◌++◌, ◌+◌,
  ◌==◌, ◌∷◌,
}

pub record ClientInfo : Type 0 where
  pub ua : Bytes
  pub since : Bytes

pub record StatePayload : Type 0 where
  pub connected : Bool
  pub client : Option ClientInfo

pub data EventName : Type 0 where
  state client_connected client_disconnected : EventName

pub record SseEvent : Type 0 where
  pub name : EventName
  pub payload : StatePayload

-- A channel, by a number that stands for its address. `seen` is what its reader was told last, first
-- by the snapshot, and `dropped` says that an event found the queue full; neither is in the program.
pub record Subscriber : Type 0 where
  pub channel : ℕ
  pub queue : List SseEvent
  pub seen : StatePayload
  pub dropped : Bool

-- `made` counts the channels that were made.
pub record Hub : Type 0 where
  pub subs : List Subscriber
  pub connected : Bool
  pub client : Option ClientInfo
  pub made : ℕ

abbrev pub new_hub : Hub
new_hub = record { subs = []; connected = false; client = none; made = 0 }

abbrev pub payload_of : Hub → StatePayload
payload_of h = record { connected = h.connected; client = h.client }

-- The snapshot is sent to the reader before anything that is in the queue.
unfoldable pub subscribe : Hub → Hub
subscribe h = record h {
  subs = record { channel = h.made; queue = []; seen = payload_of h; dropped = false } ∷ h.subs;
  made = h.made + 1;
}

-- `cancel` of a subscription.
unfoldable pub unsubscribe : ℕ → List Subscriber → List Subscriber
unsubscribe channel [] = []
unsubscribe channel (u ∷ us) =
    let rest = unsubscribe channel us in if u.channel == channel then rest else u ∷ rest

-- A send that does not block.
unfoldable pub send : SseEvent → Subscriber → Subscriber
send ev u =
    if ltb (length u.queue) 8
    then record u { queue = u.queue ++ ev ∷ [] }
    else record u { dropped = true }

unfoldable pub send_all : SseEvent → List Subscriber → List Subscriber
send_all ev [] = []
send_all ev (u ∷ us) = send ev u ∷ send_all ev us

abbrev pub publish : Hub → SseEvent → Hub
publish h ev = record h { subs = send_all ev h.subs }

-- clientConnected and clientDisconnected: the state changes under the lock, which is taken again for
-- the publication.
unfoldable pub connect : Hub → ClientInfo → Hub
connect h ci =
    publish (record h { connected = true; client = some ci })
      (record { name = client_connected; payload = record { connected = true; client = some ci } })

unfoldable pub disconnect : Hub → Hub
disconnect h =
    publish (record h { connected = false; client = none })
      (record { name = client_disconnected; payload = record { connected = false; client = none } })

-- The reader of a channel takes an event.
abbrev pub read_one : Subscriber → Subscriber
read_one u = elim u.queue [ [] ↦ u | ev ∷ rest ↦ record u { queue = rest; seen = ev.payload } ]

unfoldable pub read : ℕ → List Subscriber → List Subscriber
read channel [] = []
read channel (u ∷ us) =
    let rest = read channel us in if u.channel == channel then read_one u ∷ rest else u ∷ rest
