-- ===== src/TextUpload/Once.antt =====
-- An upload is sent once, and only under a permit that lasted.
use phonepad.Base.{
  Bytes, List, Option, [], ap, append_assoc, arith, bytes_eq_refl, get, inl, inr, none, refl, some,
  subst, sym, true, ℕ, ◌++◌, ◌<◌, ◌^◌, ◌∙◌, ◌∷◌, ◌≡◌, ◌≢◌, ◌⊎◌,
}
use phonepad.TextOps.Manifest.{Manifest}
use phonepad.TextOps.Transfer.Release.{IsText}
use phonepad.TextOps.Registry.{
  Registry, Request, calls, new_registry, released_for, serve, run_registry,
}
use phonepad.TextOps.Registry.Once.{new_registry-AtMostOneOf, new_registry_sound}
use phonepad.TextOps.Transfer.History.{claims, released}
use phonepad.Session.State.{
  ServerState, run_lifecycle_mutation, MutationPermit, capture_mutation_permit, Change,
}
use phonepad.Session.Leases.{InputLease}
use phonepad.TextOps.Registry.Invariant.{IsRegistry, run_registry-IsRegistry}
use phonepad.Session.Permissions.{input_scope}
use phonepad.Session.Permits.{IsCounting, capture_lapses, effective}
use phonepad.TextUpload.Handler.{Adapter, handle_input, insert_of}
use phonepad.TextUpload.Dispatch.{Claimed, upload_step-QuietOr, QuietOr, until_gate}
use phonepad.TextUpload.World.{Dispatch, Others, World, literal_clipboard_allowed, hold}
use phonepad.TextUpload.Request.{HttpRequest, UploadRequest}
use phonepad.TextUpload.Quiet.{admit_works, handle_input-works}
use phonepad.TextUpload.Follows.{released_for-append, run_registry-append, hold-Follows}
use phonepad.TextUpload.Commit.{upload_step}

module _ (sum256 : Bytes → Bytes) where
  released_claim :
      (r : Registry) (id text : Bytes) (later : List Request)
      → (serve sum256 r (calls id claims)).1 ≡ some (id, text)
      → (rest : List Bytes) × (released_for sum256 id r (calls id claims ∷ later) ≡ text ∷ rest)
  unfolding released_for
  released_claim r id text later h =
      (released_for sum256 id (serve sum256 r (calls id claims)).0 later, rw h (rw bytes_eq_refl))

  sole {ℓ} :
      {A : Type ℓ} (us rest : List A) (a b : A)
      → us ++ (a ∷ rest) ≡ b ∷ []
      → (a ≡ b) × (us ++ (a ∷ rest) ≡ a ∷ [])
  sole [] rest a b e = (cc, cc)
  sole (u ∷ []) rest a b e = cc
  sole (u ∷ v ∷ us) rest a b e = cc

  -- A text that a claim released is the only one that the registry ever releases for the operation.
  claimed_alone :
      (session : Bytes) (r : Registry) (qs : List Request) (id text : Bytes) (us rest : List Bytes)
      → new_registry session ≡ some r
      → released_for sum256 id r qs ≡ us ++ (text ∷ rest)
      → (released_for sum256 id r qs ≡ text ∷ [])
        × ((m : Manifest) × (m.operation_id ≡ id) × (m.session ≡ session) × IsText sum256 m text)
  claimed_alone session r qs id text us rest h e =
      elim (new_registry-AtMostOneOf sum256 session r qs id h) [
        | inl nothing ↦ absurd (not_nil us (sym e ∙ nothing))
        | inr (m, text', one, named, bound, good) ↦
            let (same, alone) = sole us rest text text' (sym e ∙ one) in
            (e ∙ alone, (m, named, bound, rw same good))
      ]
    where
      not_nil : (vs : List Bytes) → vs ++ (text ∷ rest) ≡ [] → ⊥
      not_nil [] e' = cc
      not_nil (v ∷ vs) e' = cc

same_cons : {c d : Dispatch} {ds : List Dispatch} → c ∷ [] ≡ d ∷ ds → (c ≡ d) × (ds ≡ [])
same_cons e = (cc, cc)

List-cases {ℓ} :
    {A : Type ℓ} (xs : List A) → (xs ≡ []) ⊎ ((x : A) × (rest : List A) × (xs ≡ x ∷ rest))
List-cases [] = inl refl
List-cases (x ∷ rest) = inr (x, rest, refl)

cons_not_nil : {d : Dispatch} {ds : List Dispatch} → d ∷ ds ≡ [] → ⊥
cons_not_nil e = cc

module _ (sum256 : Bytes → Bytes) (others : ℕ → Others) where
  sent_once :
      (fresh : Registry) (session id text : Bytes) (before after later : List Request)
      → new_registry session ≡ some fresh
      → Claimed sum256 others (run_registry sum256 fresh before) id text after
      → let all = released_for sum256 id fresh (before ++ (after ++ later)) in
        (all ≡ text ∷ [])
        × ((m : Manifest) × (m.operation_id ≡ id) × (m.session ≡ session) × IsText sum256 m text)
  sent_once fresh session id text before after later h c =
      let claim_call = calls id claims in
      let rest = claim_call ∷ (c.later ++ later) in
      let ordered : before ++ (after ++ later) ≡ (before ++ c.earlier) ++ rest =
        ap (λ t. before ++ (t ++ later)) c.split
        ∙ ap (λ t. before ++ t) (append_assoc c.earlier (claim_call ∷ c.later) later)
        ∙ sym (append_assoc before c.earlier rest) in
      let at_claim = run_registry sum256 fresh (before ++ c.earlier) in
      let served : (serve sum256 at_claim claim_call).1 ≡ some (id, text) =
        rw (run_registry-append sum256 before c.earlier fresh) c.claimed in
      let (tail, released) = released_claim sum256 at_claim id text (c.later ++ later) served in
      let parts : released_for sum256 id fresh (before ++ (after ++ later))
          ≡ released_for sum256 id fresh (before ++ c.earlier) ++ (text ∷ tail) =
        ap (released_for sum256 id fresh) ordered
        ∙ released_for-append sum256 (before ++ c.earlier) rest id fresh
        ∙ ap (λ t. released_for sum256 id fresh (before ++ c.earlier) ++ t) released in
      claimed_alone sum256 session fresh (before ++ (after ++ later)) id text
        (released_for sum256 id fresh (before ++ c.earlier)) tail h parts

  -- The claims of a world that sent a text.
  once_sent :
      (s : ServerState) (permit : MutationPermit) (target : Bytes) (cs : List Change)
      (r fresh : Registry) (session id : Bytes) (w : World) (sent : Dispatch) (more : List Dispatch)
      (before later : List Request)
      → new_registry session ≡ some fresh
      → r ≡ run_registry sum256 fresh before
      → w.dispatched ≡ sent ∷ more
      → QuietOr sum256 others s r permit target cs id w
      → (more ≡ [])
        × (run_lifecycle_mutation sent.gate permit ≡ none)
        × (literal_clipboard_allowed sent.asked sent.target ≡ true)
        × ((m : Manifest) × (m.operation_id ≡ id)
            × (m.session ≡ session)
            × IsText sum256 m sent.text)
        × (released_for sum256 id fresh (before ++ (w.requests ++ later)) ≡ sent.text ∷ [])
  once_sent s permit target cs r fresh session id w sent more before later f begun d (inl quiet) =
      absurd (cons_not_nil (sym d ∙ quiet))
  once_sent s permit target cs r fresh session id w sent more before later f begun d (inr sends) =
      let (equal, alone) = same_cons (sym sends.only ∙ d) in
      let claimed =
        subst (λ (t : Registry). Claimed sum256 others t id sends.sent.text w.requests) begun
          sends.of_claim in
      let (once, text_of) =
        sent_once fresh session id sends.sent.text before w.requests later f claimed in
      let allowed : literal_clipboard_allowed sends.sent.asked sends.sent.target ≡ true =
        rw sends.aimed sends.allowed in
      (
        alone,
        subst (λ (x : Dispatch). run_lifecycle_mutation x.gate permit ≡ none) equal sends.passed,
        subst (λ (x : Dispatch). literal_clipboard_allowed x.asked x.target ≡ true) equal allowed,
        subst
            (λ (x : Dispatch).
              (m : Manifest) × (m.operation_id ≡ id)
              × (m.session ≡ session)
              × IsText sum256 m x.text)
            equal text_of,
        subst
            (λ (x : Dispatch).
              released_for sum256 id fresh (before ++ (w.requests ++ later)) ≡ x.text ∷ [])
            equal once,
      )

  -- What a request that sent a text found when it was admitted.
  record Admitted (s : ServerState) (q : UploadRequest) (lease : InputLease) (w : World)
      : Type 0 where
    permit : MutationPermit
    target : Bytes
    captured : capture_mutation_permit s input_scope ≡ some permit
    outcome :
        QuietOr sum256 others s lease.registry permit target
          (until_gate sum256 others 5 [])
          q.operation_id
          w

  handle_input-Admitted :
      (s : ServerState) (r : HttpRequest) (q : UploadRequest) (now : ℕ) (random : Option Bytes)
      (adapter : Option Adapter) (w : World) (lease : InputLease) (fresh : Registry)
      (before : List Request)
      → r.body ≡ some q
      → get q.session s.input_leases ≡ some lease
      → new_registry q.session ≡ some fresh
      → lease.registry ≡ run_registry sum256 fresh before
      → (handle_input sum256 others s r now random adapter).1 ≡ some w
      → w.dispatched ≢ []
      → Admitted s q lease w
  handle_input-Admitted s r q now random adapter w lease fresh before e g f k h n =
      let (permit, held, target, admitted, ran) =
        handle_input-works sum256 others s r q now random adapter w e h n in
      let (captured, got) = admit_works s now q permit held target admitted in
      let same : held ≡ lease = ground arith in
      let sound : IsRegistry sum256 lease.registry = rw k (
        run_registry-IsRegistry sum256 fresh before
          (new_registry_sound sum256 q.session fresh f).0) in
      let ran_on : w
          ≡ (upload_step sum256 others (hold s lease) permit q target (insert_of adapter)).0 =
        ran
        ∙ ap
            (λ (l : InputLease).
              (upload_step sum256 others (hold s l) permit q target (insert_of adapter)).0)
            same in
      record {
        permit = permit;
        target = target;
        captured = captured;
        outcome =
            subst
              (λ (x : World).
                QuietOr sum256 others s lease.registry permit target (until_gate sum256 others 5 [])
                  q.operation_id x)
              (sym ran_on)
              (upload_step-QuietOr sum256 others s lease.registry permit target (hold s lease) q
                (insert_of adapter) sound refl (hold-Follows sum256 s lease));
      }

  -- If a request with a text operation reaches the literal adapter, then with one text, and whatever
  -- others do to the registry and the server between its steps: the permission for input was there
  -- when it was admitted, the permit still held when the gate let the text through, the clipboard was
  -- permitted if the target is the clipboard fallback, a manifest of the session and the operation
  -- announces the text, and over the registry's whole history, before, during and after the request,
  -- this text is the only one that the operation releases.
  pub upload_once :
      (s : ServerState) (r : HttpRequest) (q : UploadRequest) (now : ℕ) (random : Option Bytes)
      (adapter : Option Adapter) (w : World) (sent : Dispatch) (more : List Dispatch)
      (lease : InputLease) (fresh : Registry) (before later : List Request)
      → r.body ≡ some q
      → get q.session s.input_leases ≡ some lease
      → new_registry q.session ≡ some fresh
      → lease.registry ≡ run_registry sum256 fresh before
      → (handle_input sum256 others s r now random adapter).1 ≡ some w
      → w.dispatched ≡ sent ∷ more
      → (more ≡ [])
        × ((permit : MutationPermit) × (capture_mutation_permit s input_scope ≡ some permit)
            × (run_lifecycle_mutation sent.gate permit ≡ none))
        × (literal_clipboard_allowed sent.asked sent.target ≡ true)
        × ((m : Manifest) × (m.operation_id ≡ q.operation_id)
            × (m.session ≡ q.session)
            × IsText sum256 m sent.text)
        × (released_for sum256 q.operation_id fresh (before ++ (w.requests ++ later))
            ≡ sent.text ∷ [])
  upload_once s r q now random adapter w sent more lease fresh before later e g f k h d =
      let a =
        handle_input-Admitted s r q now random adapter w lease fresh before e g f k h
          (λ z. cons_not_nil (sym d ∙ z)) in
      let (alone, passed, allowed, text_of, once) =
        once_sent s a.permit a.target (until_gate sum256 others 5 []) lease.registry fresh q.session
          q.operation_id w sent more before later f k d a.outcome in
      (alone, (a.permit, a.captured, passed), allowed, text_of, once)

  gate_closed :
      (s : ServerState) (permit : MutationPermit) (target : Bytes) (cs : List Change) (r : Registry)
      (id : Bytes) (w : World)
      → IsCounting s
      → capture_mutation_permit s input_scope ≡ some permit
      → 0 < effective s cs
      → effective s cs < 2 ^ 64
      → QuietOr sum256 others s r permit target cs id w
      → w.dispatched ≡ []
  gate_closed s permit target cs r id w counting captured some_change few (inl quiet) = quiet
  gate_closed s permit target cs r id w counting captured some_change few (inr sends) = absurd (
      (capture_lapses s input_scope permit cs counting captured some_change few).1
        (ap (λ t. run_lifecycle_mutation t permit) (sym sends.lasted) ∙ sends.passed))

  -- If the permissions or the connection change between the admission of a request and the gate of
  -- its dispatch, by at least one change that is not refused and by fewer than 2^64, then the request
  -- hands no text to the literal adapter.
  pub upload_revoked :
      (s : ServerState) (r : HttpRequest) (q : UploadRequest) (now : ℕ) (random : Option Bytes)
      (adapter : Option Adapter) (w : World) (lease : InputLease) (fresh : Registry)
      (before : List Request)
      → r.body ≡ some q
      → get q.session s.input_leases ≡ some lease
      → new_registry q.session ≡ some fresh
      → lease.registry ≡ run_registry sum256 fresh before
      → (handle_input sum256 others s r now random adapter).1 ≡ some w
      → IsCounting s
      → 0 < effective s (until_gate sum256 others 5 [])
      → effective s (until_gate sum256 others 5 []) < 2 ^ 64
      → w.dispatched ≡ []
  upload_revoked s r q now random adapter w lease fresh before e g f k h counting some_change few =
      elim (List-cases w.dispatched) [
        | inl quiet ↦ quiet
        | inr (sent, more, d) ↦
            let a =
              handle_input-Admitted s r q now random adapter w lease fresh before e g f k h
                (λ z. cons_not_nil (sym d ∙ z)) in
            gate_closed s a.permit a.target (until_gate sum256 others 5 []) lease.registry
              q.operation_id w counting a.captured some_change few a.outcome
      ]
