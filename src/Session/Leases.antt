-- ===== src/Session/Leases.antt =====
-- Input leases of daemon/internal/server/input_operations.go and capabilities.go. A lease is the
-- registry of text operations of one input session.
use phonepad.Base.{
  Bool, Bytes, List, Option, [], false, get, if◌then◌else◌, is_empty, leb, length, ltb, none, put,
  remove, some, ℕ, ◌*◌, ◌-◌, ◌^◌, ◌||◌, ◌∷◌,
}
use phonepad.TextOps.Registry.{Registry, retire}
use phonepad.TextOps.Hex.{hex_encode}

-- A zero time of `retired` is `none`. Times are in nanoseconds.
pub record InputLease : Type 0 where
  pub registry : Registry
  pub created : ℕ
  pub retired : Option ℕ
  pub targets : List (Bytes × Bytes)

abbrev pub InputLeases : Type 0
InputLeases = List (Bytes × InputLease)

abbrev pub max_leases : ℕ
max_leases = 4

abbrev ten_minutes : ℕ
ten_minutes = 600 * 10 ^ 9

abbrev pub retired_long_ago : ℕ → Option ℕ → Bool
retired_long_ago now none = false
retired_long_ago now (some t) = ltb ten_minutes (now - t)

-- The loop that deletes the leases retired long ago.
unfoldable pub without_old : ℕ → InputLeases → InputLeases
without_old now [] = []
without_old now ((id, lease) ∷ rest) =
    let others = without_old now rest in
    if retired_long_ago now lease.retired then others else (id, lease) ∷ others

-- The loop that looks for the oldest lease.
unfoldable pub oldest_from : Bytes → ℕ → InputLeases → Bytes
oldest_from oldest stamp [] = oldest
oldest_from oldest stamp ((id, lease) ∷ rest) =
    let taken = oldest_from id lease.created rest in
    let passed = oldest_from oldest stamp rest in
    if is_empty oldest || ltb lease.created stamp then taken else passed

unfoldable pub make_room : InputLeases → InputLeases
make_room leases =
    if leb max_leases (length leases) then remove (oldest_from [] 0 leases) leases else leases

abbrev pub retired_lease : ℕ → InputLease → InputLease
retired_lease now lease = record lease { registry = retire lease.registry; retired = some now }

unfoldable pub retire_session : Bytes → ℕ → InputLeases → InputLeases
retire_session session now leases = elim (get session leases) [
  | none ↦ leases
  | some lease ↦ put session (retired_lease now lease) leases
]

-- A session is random bytes in hexadecimal, which NewRegistry accepts.
abbrev pub fresh_lease : Bytes → ℕ → InputLease
fresh_lease session now = record {
  registry = record { session = session; operations = []; highest = 0 };
  created = now;
  retired = none;
  targets = [];
}

-- newInputLease: the session and the leases afterwards; `random` is `none` if there is none to be had.
unfoldable pub new_input_lease : Bytes → InputLeases → ℕ → Option Bytes → Bytes × InputLeases
new_input_lease session leases now random =
    let room = make_room (without_old now (retire_session session now leases)) in
    elim random [
      | none ↦ ([], room)
      | some n ↦ (hex_encode n, put (hex_encode n) (fresh_lease (hex_encode n) now) room)
    ]

abbrev first_retired : ℕ → Option ℕ → Option ℕ
first_retired now none = some now
first_retired now (some t) = some t

-- retireInputLeasesLocked
unfoldable pub retire_input_leases : ℕ → InputLeases → InputLeases
retire_input_leases now [] = []
retire_input_leases now ((id, lease) ∷ rest) =
    (
      id,
      record lease { registry = retire lease.registry; retired = first_retired now lease.retired },
    )
    ∷ retire_input_leases now rest
