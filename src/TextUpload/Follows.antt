-- ===== src/TextUpload/Follows.antt =====
-- The worlds of one request: what a step adds to the calls on the registry and to the dispatches.
use phonepad.Base.{
  Bytes, List, Option, [], ap, append_assoc, arith, none, refl, some, sym, ◌++◌, ◌∙◌, ◌∷◌, ◌≡◌,
}
use phonepad.TextOps.Manifest.{Manifest}
use phonepad.TextOps.Transfer.{claim, new_transfer}
use phonepad.TextOps.Transfer.History.{claims, step}
use phonepad.TextOps.Registry.{Registry, Request, calls, emit_of, released_for, run_registry, serve}
use phonepad.Session.State.{ServerState, Change, change, change_all}
use phonepad.Session.Leases.{InputLease}
use phonepad.TextUpload.World.{World, Others, ask, hold, meet, transfer_of}

pub change_all-append :
    (cs ds : List Change) (s : ServerState)
    → change_all s (cs ++ ds) ≡ change_all (change_all s cs) ds
unfolding change_all
change_all-append [] ds s = refl
change_all-append (c ∷ cs) ds s = change_all-append cs ds (change s c)

module _ (sum256 : Bytes → Bytes) where
  pub run_registry-append :
      (xs ys : List Request) (r : Registry)
      → run_registry sum256 r (xs ++ ys) ≡ run_registry sum256 (run_registry sum256 r xs) ys
  unfolding run_registry
  run_registry-append [] ys r = refl
  run_registry-append (x ∷ xs) ys r = run_registry-append xs ys (serve sum256 r x).0

  emit_of-append :
      (id : Bytes) (o : Option (Bytes × Bytes)) (us vs : List Bytes)
      → emit_of id o (us ++ vs) ≡ emit_of id o us ++ vs
  emit_of-append id none us vs = refl
  emit_of-append id (some (key, text)) us vs = ground arith

  pub released_for-append :
      (xs ys : List Request) (id : Bytes) (r : Registry)
      → released_for sum256 id r (xs ++ ys)
        ≡ released_for sum256 id r xs ++ released_for sum256 id (run_registry sum256 r xs) ys
  unfolding released_for run_registry
  released_for-append [] ys id r = refl
  released_for-append (x ∷ xs) ys id r =
      ap (emit_of id (serve sum256 r x).1) (released_for-append xs ys id (serve sum256 r x).0)
      ∙ emit_of-append id (serve sum256 r x).1 (released_for sum256 id (serve sum256 r x).0 xs)
          (released_for sum256 id (run_registry sum256 (serve sum256 r x).0 xs) ys)

  -- The registry and the server of a world are what the calls and changes on record make of those
  -- that it began with.
  pub record Follows (s : ServerState) (r : Registry) (w : World) : Type 0 where
    pub server : w.server ≡ change_all s w.changes
    pub registry : w.registry ≡ run_registry sum256 r w.requests

  pub hold-Follows :
      (s : ServerState) (lease : InputLease) → Follows s lease.registry (hold s lease)
  unfolding change_all run_registry
  hold-Follows s lease = record { server = refl; registry = refl }

  module _ (s : ServerState) (r : Registry) where
    pub meet-Follows : (w : World) (o : Others) → Follows s r w → Follows s r (meet sum256 w o)
    unfolding meet
    meet-Follows w o f = record {
      server =
          ap (λ t. change_all t o.changes) f.server ∙ sym (change_all-append w.changes o.changes s);
      registry =
          ap (λ t. run_registry sum256 t o.requests) f.registry
          ∙ sym (run_registry-append w.requests o.requests r);
    }

    run_registry_one :
        (q : Request) (t : Registry) → run_registry sum256 t (q ∷ []) ≡ (serve sum256 t q).0
    unfolding run_registry
    run_registry_one q t = refl

    pub ask-Follows : (w : World) (q : Request) → Follows s r w → Follows s r (ask sum256 w q)
    unfolding ask
    ask-Follows w q f = record {
      server = f.server;
      registry =
          ap (λ t. (serve sum256 t q).0) f.registry
          ∙ sym (run_registry_one q (run_registry sum256 r w.requests))
          ∙ sym (run_registry-append w.requests (q ∷ []) r);
    }

  -- A step that dispatches nothing.
  pub record Extends (w w' : World) : Type 0 where
    pub more : List Request
    pub requests : w'.requests ≡ w.requests ++ more
    pub dispatched : w'.dispatched ≡ w.dispatched

  pub Extends-trans : (u v w : World) → Extends u v → Extends v w → Extends u w
  Extends-trans u v w e f = record {
    more = e.more ++ f.more;
    requests =
        f.requests ∙ ap (λ t. t ++ f.more) e.requests ∙ append_assoc u.requests e.more f.more;
    dispatched = f.dispatched ∙ e.dispatched;
  }

  pub meet-Extends : (w : World) (o : Others) → Extends w (meet sum256 w o)
  unfolding meet
  meet-Extends w o = record { more = o.requests; requests = refl; dispatched = refl }

  pub ask-Extends : (w : World) (q : Request) → Extends w (ask sum256 w q)
  unfolding ask
  ask-Extends w q = record { more = q ∷ []; requests = refl; dispatched = refl }

  -- A claim that yields a text is a call of the registry that releases it.
  pub claim_serves :
      (w : World) (m : Manifest) (text : Bytes)
      → (claim (transfer_of w m)).1 ≡ some text
      → (serve sum256 w.registry (calls m.operation_id claims)).1 ≡ some (m.operation_id, text)
  unfolding transfer_of serve step claim new_transfer
  claim_serves w m text h = ground arith
