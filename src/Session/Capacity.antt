-- ===== src/Session/Capacity.antt =====
-- How many input leases there are.
use phonepad.Base.{
  Bool, Bool-cases, Bytes, List, Option, Option-cases, [], ap, arith, bytes_eq_refl, get, has, inl,
  inr, is_empty, length, length-put, length-put_known, length-remove_known, ltb, none, not, put,
  refl, some, suc, true, ℕ, ◌&&◌, ◌==◌, ◌||◌, ◌∷◌, ◌≡◌, ◌≤◌, ◌⊎◌,
}
use phonepad.TextOps.Hex.{hex_encode}
use phonepad.Session.State.{
  Change, ServerState, change, change_all, clear_current, connects, disconnects, is_some, permits,
  set_current, set_permissions, shutdown_resources, shuts_down,
}
use phonepad.Session.Leases.{
  InputLease, InputLeases, fresh_lease, make_room, max_leases, new_input_lease, oldest_from,
  retire_input_leases, retire_session, without_old,
}
use phonepad.Session.Permissions.{Permissions}

length-without_old :
    (now : ℕ) (leases : InputLeases) → length (without_old now leases) ≤ length leases
unfolding without_old
length-without_old now [] = omega arith
length-without_old now ((id, lease) ∷ rest) = ground (arith, length-without_old now rest)

length-retire_session :
    (session : Bytes) (now : ℕ) (leases : InputLeases)
    → length (retire_session session now leases) ≡ length leases
unfolding retire_session
length-retire_session session now leases = elim (Option-cases (get session leases)) [
  | inl e ↦ rw (e, retire_session) refl
  | inr (lease, e) ↦ rw (e, retire_session) (length-put_known session _ lease leases e)
]

length-retire_input_leases :
    (now : ℕ) (leases : InputLeases) → length (retire_input_leases now leases) ≡ length leases
unfolding retire_input_leases
length-retire_input_leases now [] = refl
length-retire_input_leases now ((id, lease) ∷ rest) = ap suc (length-retire_input_leases now rest)

-- The search ends with the key that it began with, or with one of the list.
has-oldest_from :
    (oldest : Bytes) (stamp : ℕ) (leases : InputLeases)
    → (oldest_from oldest stamp leases ≡ oldest)
      ⊎ (has (oldest_from oldest stamp leases) leases ≡ true)
unfolding oldest_from has
has-oldest_from oldest stamp [] = inl refl
has-oldest_from oldest stamp ((id, lease) ∷ rest) =
    elim (Bool-cases (is_empty oldest || ltb lease.created stamp)) [
      | inl e ↦ ground (arith, e, has-oldest_from id lease.created rest, bytes_eq_refl id)
      | inr e ↦ ground (arith, e, has-oldest_from oldest stamp rest)
    ]

-- From no key, the search of a list that has entries ends with one of their keys.
has-oldest :
    (id : Bytes) (lease : InputLease) (rest : InputLeases)
    → has (oldest_from [] 0 ((id, lease) ∷ rest)) ((id, lease) ∷ rest) ≡ true
unfolding oldest_from has
has-oldest id lease rest = ground (arith, has-oldest_from id lease.created rest, bytes_eq_refl id)

length-make_room :
    (leases : InputLeases)
    → length leases ≤ max_leases
    → suc (length (make_room leases)) ≤ max_leases
unfolding make_room
length-make_room [] h = omega arith
length-make_room ((id, lease) ∷ rest) h = ground (
  arith,
  length-remove_known (oldest_from [] 0 ((id, lease) ∷ rest)) ((id, lease) ∷ rest)
      (has-oldest id lease rest),
)

abbrev pub IsFew : InputLeases → Type 0
IsFew leases = length leases ≤ max_leases

new_input_lease-IsFew :
    (session : Bytes) (leases : InputLeases) (now : ℕ) (random : Option Bytes)
    → IsFew leases
    → IsFew (new_input_lease session leases now random).1
unfolding new_input_lease
new_input_lease-IsFew session leases now random h =
    let retired = retire_session session now leases in
    let room = make_room (without_old now retired) in
    let fits : (suc (length room) ≤ max_leases) = length-make_room (without_old now retired) (
      omega (arith, h, length-without_old now retired, length-retire_session session now leases)) in
    few random room fits
  where
    few :
        (random : Option Bytes) (room : InputLeases)
        → suc (length room) ≤ max_leases
        → IsFew
            (elim random as (λ x. Bytes × InputLeases) [
              | none ↦ ([], room)
              | some n ↦ (hex_encode n, put (hex_encode n) (fresh_lease (hex_encode n) now) room)
            ]).1
    few none room f = omega (arith, f)
    few (some n) room f =
        omega (arith, f, length-put (hex_encode n) (fresh_lease (hex_encode n) now) room)

set_permissions-IsFew :
    (s : ServerState) (value : Permissions) (now : ℕ) (random : Option Bytes) (fails : Bool)
    → IsFew s.input_leases
    → IsFew (set_permissions s value now random fails).input_leases
unfolding set_permissions
set_permissions-IsFew s value now random fails h = ground (
  arith,
  length-retire_input_leases now s.input_leases,
  new_input_lease-IsFew s.input_session (retire_input_leases now s.input_leases) now random,
)

set_current-IsFew :
    (s : ServerState) (c protocol : ℕ) (epoch : Option Bytes) (now : ℕ) (random : Option Bytes)
    (geometry_fails reset_fails : Bool)
    → IsFew s.input_leases
    → IsFew (set_current s c protocol epoch now random geometry_fails reset_fails).input_leases
unfolding set_current
set_current-IsFew s c protocol epoch now random geometry_fails reset_fails h =
    elim (Bool-cases
      (not (is_some epoch) && protocol == 2 || s.lifecycle_closing || geometry_fails)) [
        | inl e ↦ rw (e, set_current) h
        | inr e ↦
            rw (e, set_current) (new_input_lease-IsFew s.input_session s.input_leases now random h)
      ]

change-IsFew :
    (s : ServerState) (c : Change) → IsFew s.input_leases → IsFew (change s c).input_leases
unfolding change clear_current shutdown_resources
change-IsFew s (permits value now random fails) h = set_permissions-IsFew s value now random fails h
change-IsFew s (connects c protocol epoch now random geometry_fails reset_fails) h =
    set_current-IsFew s c protocol epoch now random geometry_fails reset_fails h
change-IsFew s (disconnects c gen now fails) h =
    ground (arith, length-retire_session s.input_session now s.input_leases)
change-IsFew s (shuts_down now) h = omega (arith, h, length-retire_input_leases now s.input_leases)

-- However permissions and connections change, a server that has at most four input leases never has
-- more.
pub change_all-IsFew :
    (s : ServerState) (cs : List Change)
    → IsFew s.input_leases
    → IsFew (change_all s cs).input_leases
unfolding change_all
change_all-IsFew s [] h = h
change_all-IsFew s (c ∷ cs) h = change_all-IsFew (change s c) cs (change-IsFew s c h)
