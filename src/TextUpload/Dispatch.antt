-- ===== src/TextUpload/Dispatch.antt =====
-- What a commit of handleInput hands to the literal adapter.
use phonepad.Base.{
  Bool-cases, Bytes, List, Option, Option-cases, [], ap, append_assoc, arith, ascii, inl, inr, none,
  refl, some, subst, suc, true, zero, ℕ, ℤ, ◌++◌, ◌-◌, ◌∙◌, ◌∷◌, ◌≡◌, ◌⊎◌,
}
use phonepad.TextOps.Manifest.{Manifest}
use phonepad.TextOps.Transfer.{finish, claim, Receipt, commit, is_ready}
use phonepad.TextOps.Transfer.History.{claims, finishes, commits}
use phonepad.TextOps.Registry.{
  Registry, Request, calls, run_registry, serve, begin, begins, find, lookup,
}
use phonepad.Session.State.{MutationPermit, run_lifecycle_mutation, ServerState, Change, change_all}
use phonepad.TextOps.Registry.Once.{find-IsEntry}
use phonepad.TextOps.Registry.Invariant.{IsRegistry, run_registry-IsRegistry}
use phonepad.TextUpload.World.{
  World, Dispatch, LiteralResult, Others, call_on, literal_clipboard_allowed, meet, transfer_of,
  ask,
}
use phonepad.TextUpload.Commit.{
  dispatch_text, finish_dispatch, recorded_state, dispatch_claimed, dispatch_ready, chunk_begun,
  commit_begun, upload_begun, upload_step, with_transfer,
}
use phonepad.TextUpload.Follows.{
  Extends, claim_serves, Follows, meet-Follows, ask-Follows, Extends-trans, ask-Extends,
  meet-Extends,
}
use phonepad.TextUpload.Request.{UploadRequest, is_op}

module _ (sum256 : Bytes → Bytes) (others : ℕ → Others) where
  -- A claim of the operation that released a text, among the calls on record.
  pub record Claimed (r : Registry) (id text : Bytes) (requests : List Request) : Type 0 where
    pub earlier : List Request
    pub later : List Request
    pub split : requests ≡ earlier ++ (calls id claims ∷ later)
    pub claimed :
        (serve sum256 (run_registry sum256 r earlier) (calls id claims)).1 ≡ some (id, text)

  -- What others change at the server from a step of the commit on, until the gate is passed; `n` is
  -- the number of steps that are left.
  abbrev pub until_gate : ℕ → List Change → List Change
  until_gate zero cs = cs
  until_gate (suc n) cs = until_gate n (cs ++ (others (5 - n)).changes)

  -- The one dispatch of a world: the text that this request claimed, sent to the target under a
  -- permit that held after the changes `cs` of the server `s`, and with the permission that its
  -- target wants.
  pub record Sends (s : ServerState) (r : Registry) (permit : MutationPermit) (target : Bytes)
      (cs : List Change) (id : Bytes) (w : World) : Type 0 where
    pub sent : Dispatch
    pub only : w.dispatched ≡ sent ∷ []
    pub aimed : sent.target ≡ target
    pub lasted : sent.gate ≡ change_all s cs
    pub passed : run_lifecycle_mutation sent.gate permit ≡ none
    pub allowed : literal_clipboard_allowed sent.asked target ≡ true
    pub of_claim : Claimed r id sent.text w.requests

  abbrev pub QuietOr :
      ServerState → Registry → MutationPermit → Bytes → List Change → Bytes → World → Type 0
  QuietOr s r permit target cs id w = (w.dispatched ≡ []) ⊎ Sends s r permit target cs id w

  Claimed-Extends :
      (r : Registry) (id text : Bytes) (w w' : World)
      → Extends sum256 w w'
      → Claimed r id text w.requests
      → Claimed r id text w'.requests
  Claimed-Extends r id text w w' e c = record {
    earlier = c.earlier;
    later = c.later ++ e.more;
    split =
        e.requests
        ∙ ap (λ t. t ++ e.more) c.split
        ∙ append_assoc c.earlier (calls id claims ∷ c.later) e.more;
    claimed = c.claimed;
  }

  Quiet-Extends : (w w' : World) → Extends sum256 w w' → w.dispatched ≡ [] → w'.dispatched ≡ []
  Quiet-Extends w w' e q = e.dispatched ∙ q

  finish_dispatch-Extends :
      (w : World) (m : Manifest) (result : LiteralResult)
      → Extends sum256 w (finish_dispatch sum256 others w m result).0
  unfolding finish_dispatch
  finish_dispatch-Extends w m result =
      let before = meet sum256 w (others 7) in
      let state = recorded_state result in
      let after = call_on sum256 before m (finishes state) in
      let finished : Extends sum256 w after =
        Extends-trans sum256 w before after (meet-Extends sum256 w (others 7))
          (ask-Extends sum256 before (calls m.operation_id (finishes state))) in
      elim (Option-cases (finish (transfer_of before m) state).2) [
        | inl e ↦ rw (e, finish_dispatch) finished
        | inr (err, e) ↦
            rw (e, finish_dispatch)
              (Extends-trans sum256 w after (meet sum256 after (others 8)) finished
                (meet-Extends sum256 after (others 8)))
      ]

  claim-Claimed :
      (r : Registry) (w : World) (m : Manifest) (text : Bytes)
      → (claim (transfer_of w m)).1 ≡ some text
      → w.registry ≡ run_registry sum256 r w.requests
      → Claimed r m.operation_id text (call_on sum256 w m claims).requests
  unfolding ask
  claim-Claimed r w m text e f = record {
    earlier = w.requests;
    later = [];
    split = refl;
    claimed = rw f at (claim_serves sum256 w m text e);
  }

  module _ (s : ServerState) (r : Registry) (permit : MutationPermit) (target : Bytes) where
    -- The world after the gate, before the result is recorded.
    dispatch_text-QuietOr :
        (w : World) (cs : List Change) (id text : Bytes)
        (adapter : Bytes → Bytes → Option LiteralResult)
        → w.dispatched ≡ []
        → w.server ≡ change_all s cs
        → run_lifecycle_mutation w.server permit ≡ none
        → Claimed r id text w.requests
        → QuietOr s r permit target cs id (dispatch_text sum256 others w text target adapter).0
    unfolding dispatch_text
    dispatch_text-QuietOr w cs id text adapter quiet lasted passed c =
        let asking = meet sum256 w (others 6) in
        let extends = meet-Extends sum256 w (others 6) in
        let sent : Dispatch = record {
          text = text;
          target = target;
          gate = w.server;
          asked = asking.server;
        } in
        elim (Bool-cases (literal_clipboard_allowed asking.server target)) [
          | inr e ↦ rw (e, dispatch_text) (inl (Quiet-Extends w asking extends quiet))
          | inl e ↦
              rw (e, dispatch_text)
                (inr (record {
                  sent = sent;
                  only = ap (λ t. sent ∷ t) (Quiet-Extends w asking extends quiet);
                  aimed = refl;
                  lasted = lasted;
                  passed = passed;
                  allowed = e;
                  of_claim = Claimed-Extends r id text w asking extends c;
                }))
        ]

    finish-QuietOr :
        (w : World) (cs : List Change) (m : Manifest) (id : Bytes) (result : LiteralResult)
        → QuietOr s r permit target cs id w
        → QuietOr s r permit target cs id (finish_dispatch sum256 others w m result).0
    finish-QuietOr w cs m id result (inl quiet) = inl (
        Quiet-Extends w (finish_dispatch sum256 others w m result).0
          (finish_dispatch-Extends w m result) quiet)
    finish-QuietOr w cs m id result (inr d) =
        let w' = (finish_dispatch sum256 others w m result).0 in
        let e = finish_dispatch-Extends w m result in
        inr (record {
          sent = d.sent;
          only = e.dispatched ∙ d.only;
          aimed = d.aimed;
          lasted = d.lasted;
          passed = d.passed;
          allowed = d.allowed;
          of_claim = Claimed-Extends r id d.sent.text w w' e d.of_claim;
        })

    dispatch_claimed-QuietOr :
        (w : World) (m : Manifest) (text : Bytes) (adapter : Bytes → Bytes → Option LiteralResult)
        → w.dispatched ≡ []
        → Follows sum256 s r w
        → Claimed r m.operation_id text w.requests
        → QuietOr s r permit target
            (until_gate 1 w.changes)
            m.operation_id
            (dispatch_claimed sum256 others w m permit text target adapter).0
    unfolding dispatch_claimed meet
    dispatch_claimed-QuietOr w m text adapter quiet f c =
        let gate = meet sum256 w (others 5) in
        let extends = meet-Extends sum256 w (others 5) in
        let quiet' = Quiet-Extends w gate extends quiet in
        let out = dispatch_text sum256 others gate text target adapter in
        elim (Option-cases (run_lifecycle_mutation gate.server permit)) [
          | inl passed ↦
              rw (passed, dispatch_claimed)
                (finish-QuietOr out.0 gate.changes m m.operation_id out.1 (
                  dispatch_text-QuietOr gate gate.changes m.operation_id text adapter quiet'
                    (meet-Follows sum256 s r w (others 5) f).server passed
                    (Claimed-Extends r m.operation_id text w gate extends c)))
          | inr (err, e) ↦
              rw (e, dispatch_claimed)
                (finish-QuietOr gate gate.changes m m.operation_id _ (inl quiet'))
        ]

    dispatch_ready-QuietOr :
        (w : World) (m : Manifest) (adapter : Option (Bytes → Bytes → Option LiteralResult))
        → w.dispatched ≡ []
        → Follows sum256 s r w
        → QuietOr s r permit target
            (until_gate 2 w.changes)
            m.operation_id
            (dispatch_ready sum256 others w m permit target adapter).0
    unfolding dispatch_ready meet ask
    dispatch_ready-QuietOr w m none quiet f = inl quiet
    dispatch_ready-QuietOr w m (some adapter) quiet f =
        let before = meet sum256 w (others 4) in
        let after = call_on sum256 before m claims in
        let quiet' : after.dispatched ≡ [] =
          Quiet-Extends before after (ask-Extends sum256 before (calls m.operation_id claims))
            (Quiet-Extends w before (meet-Extends sum256 w (others 4)) quiet) in
        elim (Option-cases (claim (transfer_of before m)).1) [
          | inl e ↦ rw (e, dispatch_ready) (inl quiet')
          | inr (text, e) ↦
              rw (e, dispatch_ready)
                (dispatch_claimed-QuietOr after m text adapter quiet'
                  (ask-Follows sum256 s r before (calls m.operation_id claims)
                    (meet-Follows sum256 s r w (others 4) f))
                  (claim-Claimed r before m text e
                    (meet-Follows sum256 s r w (others 4) f).registry))
        ]

    commit_begun-QuietOr :
        (w : World) (m : Manifest) (adapter : Option (Bytes → Bytes → Option LiteralResult))
        → w.dispatched ≡ []
        → Follows sum256 s r w
        → QuietOr s r permit target
            (until_gate 3 w.changes)
            m.operation_id
            (commit_begun sum256 others w m permit target adapter).0
    unfolding commit_begun meet ask
    commit_begun-QuietOr w m adapter quiet f =
        let before = meet sum256 w (others 3) in
        let after = call_on sum256 before m commits in
        let quiet' : after.dispatched ≡ [] =
          Quiet-Extends before after (ask-Extends sum256 before (calls m.operation_id commits))
            (Quiet-Extends w before (meet-Extends sum256 w (others 3)) quiet) in
        let follows : Follows sum256 s r after =
          ask-Follows sum256 s r before (calls m.operation_id commits)
            (meet-Follows sum256 s r w (others 3) f) in
        let reply = commit sum256 (transfer_of before m) in
        elim (Option-cases reply.2) [
          | inr (err, e) ↦ rw (e, commit_begun) (inl quiet')
          | inl e ↦
              rw (e, commit_begun)
                (elim (Bool-cases (is_ready reply.1.state)) [
                  | inl e' ↦ rw e' (dispatch_ready-QuietOr after m adapter quiet' follows)
                  | inr e' ↦ rw e' (inl quiet')
                ])
        ]

    chunk_begun-Quiet :
        (w : World) (m : Manifest) (index : ℤ) (bytes : Bytes)
        → w.dispatched ≡ []
        → (chunk_begun sum256 others w m index bytes).0.dispatched ≡ []
    unfolding chunk_begun meet ask
    chunk_begun-Quiet w m index bytes quiet = ground arith

    begun-QuietOr :
        (w : World) (m : Manifest) (q : UploadRequest)
        (adapter : Option (Bytes → Bytes → Option LiteralResult))
        → w.dispatched ≡ []
        → Follows sum256 s r w
        → QuietOr s r permit target
            (until_gate 3 w.changes)
            m.operation_id
            (upload_begun sum256 others permit q target adapter w m).0
    unfolding upload_begun
    begun-QuietOr w m q adapter quiet f = elim (Bool-cases (is_op q (ascii "chunk"))) [
      | inl e ↦ rw e (inl (chunk_begun-Quiet w m q.index q.bytes quiet))
      | inr e ↦ rw e (elim (Bool-cases (is_op q (ascii "commit"))) [
        | inl e' ↦ rw e' (commit_begun-QuietOr w m adapter quiet f)
        | inr e' ↦ rw e' (inl quiet)
      ])
    ]

    lookup_named :
        (t : Registry) (id : Bytes) (found : Receipt)
        → IsRegistry sum256 t
        → lookup t id ≡ some found
        → found.manifest.operation_id ≡ id
    unfolding lookup
    lookup_named t id found v h = elim (Option-cases (find id t.operations)) [
      | inl e ↦ ground arith
      | inr (u, e) ↦
          let named = (find-IsEntry sum256 t.session id t.operations u v.entries e).named in
          ground arith
    ]

    -- What a chunk or a commit leaves of a world that it took hold of.
    pub upload_step-QuietOr :
        (w : World) (q : UploadRequest) (adapter : Option (Bytes → Bytes → Option LiteralResult))
        → IsRegistry sum256 r
        → w.dispatched ≡ []
        → Follows sum256 s r w
        → QuietOr s r permit target
            (until_gate 5 w.changes)
            q.operation_id
            (upload_step sum256 others w permit q target adapter).0
    unfolding upload_step with_transfer meet ask
    upload_step-QuietOr w q adapter v quiet f =
        let looking = meet sum256 w (others 1) in
        let before = meet sum256 looking (others 2) in
        let followed = meet-Follows sum256 s r w (others 1) f in
        let quiet1 : looking.dispatched ≡ [] =
          Quiet-Extends w looking (meet-Extends sum256 w (others 1)) quiet in
        let quiet2 : before.dispatched ≡ [] =
          Quiet-Extends looking before (meet-Extends sum256 looking (others 2)) quiet1 in
        elim (Option-cases (lookup looking.registry q.operation_id)) [
          | inl e ↦ rw (e, with_transfer) (inl quiet1)
          | inr (found, e) ↦
              let after = ask sum256 before (begins found.manifest) in
              let out =
                (upload_begun sum256 others permit q target adapter after found.manifest).0 in
              let quiet3 : after.dispatched ≡ [] =
                Quiet-Extends before after (ask-Extends sum256 before (begins found.manifest))
                  quiet2 in
              let follows =
                ask-Follows sum256 s r before (begins found.manifest)
                  (meet-Follows sum256 s r looking (others 2) followed) in
              let named =
                lookup_named looking.registry q.operation_id found
                  (rw followed.registry (run_registry-IsRegistry sum256 r looking.requests v)) e in
              rw (e, with_transfer)
                (elim (Option-cases (begin before.registry found.manifest).1) [
                  | inr (err, e') ↦ rw e' (inl quiet3)
                  | inl e' ↦ rw e' (
                      subst (λ id. QuietOr s r permit target (until_gate 5 w.changes) id out) named
                        (begun-QuietOr after found.manifest q adapter quiet3 follows))
                ])
        ]
