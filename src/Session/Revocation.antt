-- ===== src/Session/Revocation.antt =====
-- What becomes of the input leases when the permission for input is revoked.
use phonepad.Base.{
  All, Bool, Bool-cases, Bytes, List, Option, Option-cases, [], arith, bytes_eq, false, get, inl,
  inr, leb, length, none, put, remove, some, true, ℕ, ◌∙◌, ◌∷◌, ◌≡◌,
}
use phonepad.TextOps.Hex.{hex_encode}
use phonepad.TextOps.Transfer.{TextTransfer, retire_transfer}
use phonepad.TextOps.Transfer.Invariant.{is_staged}
use phonepad.TextOps.Transfer.Release.{released_spent}
use phonepad.TextOps.Registry.{Request, Registry, find, retire, released_for}
use phonepad.TextOps.Registry.Known.{project, released_for-known, find-retire_all}
use phonepad.Session.Leases.{
  InputLease, InputLeases, fresh_lease, make_room, max_leases, new_input_lease, retire_input_leases,
  retire_session, without_old, retired_long_ago,
}
use phonepad.Session.Permissions.{Permissions, is_granted}
use phonepad.Session.State.{ServerState, input_allowed, is_some, revised, revoked, set_permissions}

-- Nothing is staged in the registry of the lease.
IsQuiet : Bytes × InputLease → Type 0
IsQuiet e =
    (id : Bytes) (t : TextTransfer)
    → find id e.1.registry.operations ≡ some t
    → is_staged t.state ≡ false

retire_transfer-unstaged : (t : TextTransfer) → is_staged (retire_transfer t).state ≡ false
unfolding retire_transfer
retire_transfer-unstaged t = ground arith

retire-IsQuiet :
    (r : Registry) (id : Bytes) (t : TextTransfer)
    → find id (retire r).operations ≡ some t
    → is_staged t.state ≡ false
unfolding retire
retire-IsQuiet r id t h = elim (Option-cases (find id r.operations)) [
  | inl e ↦ ground (arith, find-retire_all id r.operations, e)
  | inr (u, e) ↦ ground (arith, find-retire_all id r.operations, e, retire_transfer-unstaged u)
]

retire_input_leases-IsQuiet :
    (now : ℕ) (leases : InputLeases) → All IsQuiet (retire_input_leases now leases)
unfolding retire_input_leases IsQuiet
retire_input_leases-IsQuiet now [] = tt
retire_input_leases-IsQuiet now ((id, lease) ∷ rest) =
    (retire-IsQuiet lease.registry, retire_input_leases-IsQuiet now rest)

All-put {κ} :
    (P : Bytes × InputLease → Type κ) (k : Bytes) (lease : InputLease) (leases : InputLeases)
    → ((key : Bytes) → P (key, lease))
    → All P leases
    → All P (put k lease leases)
unfolding put
All-put P k lease [] p h = (p k, tt)
All-put P k lease ((key, old) ∷ rest) p h = elim (Bool-cases (bytes_eq key k)) [
  | inl e ↦ rw (e, put) (p key, h.1)
  | inr e ↦ rw (e, put) (h.0, All-put P k lease rest p h.1)
]

All-remove {κ} :
    (P : Bytes × InputLease → Type κ) (k : Bytes) (leases : InputLeases)
    → All P leases
    → All P (remove k leases)
unfolding remove
All-remove P k [] h = h
All-remove P k ((key, lease) ∷ rest) h = elim (Bool-cases (bytes_eq key k)) [
  | inl e ↦ rw (e, remove) (All-remove P k rest h.1)
  | inr e ↦ rw (e, remove) (h.0, All-remove P k rest h.1)
]

All-without_old {κ} :
    (P : Bytes × InputLease → Type κ) (now : ℕ) (leases : InputLeases)
    → All P leases
    → All P (without_old now leases)
unfolding without_old
All-without_old P now [] h = h
All-without_old P now ((key, lease) ∷ rest) h =
    elim (Bool-cases (retired_long_ago now lease.retired)) [
      | inl e ↦ rw (e, without_old) (All-without_old P now rest h.1)
      | inr e ↦ rw (e, without_old) (h.0, All-without_old P now rest h.1)
    ]

All-make_room {κ} :
    (P : Bytes × InputLease → Type κ) (leases : InputLeases)
    → All P leases
    → All P (make_room leases)
unfolding make_room
All-make_room P leases h = elim (Bool-cases (leb max_leases (length leases))) [
  | inl e ↦ rw (e, make_room) (All-remove P _ leases h)
  | inr e ↦ rw (e, make_room) h
]

retire_session-IsQuiet :
    (session : Bytes) (now : ℕ) (leases : InputLeases)
    → All IsQuiet leases
    → All IsQuiet (retire_session session now leases)
unfolding retire_session IsQuiet
retire_session-IsQuiet session now leases h = elim (Option-cases (get session leases)) [
  | inl e ↦ rw (e, retire_session) h
  | inr (lease, e) ↦
      rw (e, retire_session)
        (All-put IsQuiet session _ leases (λ key. retire-IsQuiet lease.registry) h)
]

fresh-IsQuiet : (session key : Bytes) (now : ℕ) → IsQuiet (key, fresh_lease session now)
unfolding IsQuiet find
fresh-IsQuiet session key now id t h = ground arith

new_input_lease-IsQuiet :
    (session : Bytes) (leases : InputLeases) (now : ℕ) (random : Option Bytes)
    → All IsQuiet leases
    → All IsQuiet (new_input_lease session leases now random).1
unfolding new_input_lease
new_input_lease-IsQuiet session leases now none h =
    All-make_room IsQuiet _
      (All-without_old IsQuiet now _ (retire_session-IsQuiet session now leases h))
new_input_lease-IsQuiet session leases now (some n) h =
    All-put IsQuiet (hex_encode n) _ _ (λ key. fresh-IsQuiet (hex_encode n) key now)
      (All-make_room IsQuiet _
        (All-without_old IsQuiet now _ (retire_session-IsQuiet session now leases h)))

revoked-IsQuiet :
    (s : ServerState) (now : ℕ) (random : Option Bytes)
    → All IsQuiet (revoked s now random).input_leases
revoked-IsQuiet s now random = elim (Bool-cases (is_some s.current)) [
  | inl e ↦ rw e (
      new_input_lease-IsQuiet s.input_session _ now random
        (retire_input_leases-IsQuiet now s.input_leases))
  | inr e ↦ rw e (retire_input_leases-IsQuiet now s.input_leases)
]

-- No history of the lease's registry releases a text of an operation on record.
abbrev pub IsSilent : (Bytes → Bytes) → Bytes × InputLease → Type 0
IsSilent sum256 e =
    (qs : List Request) (id : Bytes) (t : TextTransfer)
    → find id e.1.registry.operations ≡ some t
    → released_for sum256 id e.1.registry qs ≡ []

quiet-IsSilent :
    (sum256 : Bytes → Bytes) (leases : InputLeases)
    → All IsQuiet leases
    → All (IsSilent sum256) leases
unfolding IsQuiet
quiet-IsSilent sum256 [] h = tt
quiet-IsSilent sum256 ((key, lease) ∷ rest) h = (
  λ qs id t e.
      released_for-known sum256 qs lease.registry id t e
      ∙ released_spent sum256 t (project id qs) (h.0 id t e),
  quiet-IsSilent sum256 rest h.1,
)

-- SetPermissions that takes the input away from a server that had it silences every text in flight:
-- afterwards no lease has an operation whose text can still be released.
pub set_permissions_silences :
    (sum256 : Bytes → Bytes) (s : ServerState) (value : Permissions) (now : ℕ)
    (random : Option Bytes) (reset_fails : Bool)
    → is_granted value.view ≡ true
    → input_allowed s ≡ true
    → input_allowed (revised s value) ≡ false
    → All (IsSilent sum256) (set_permissions s value now random reset_fails).input_leases
unfolding set_permissions
set_permissions_silences sum256 s value now random reset_fails view was is =
    rw (view, was, is, set_permissions)
      (quiet-IsSilent sum256 _ (revoked-IsQuiet (revised s value) now random))
