-- ===== src/TextUpload/Quiet.antt =====
-- Which requests of handleInput reach the literal adapter with a text: none but a chunk or a commit.
use phonepad.Base.{
  Bool-cases, Bytes, Option, [], arith, ascii, get, inl, inr, none, refl, some, ℕ, ◌≡◌, ◌≢◌,
}
use phonepad.TextOps.Manifest.{Manifest}
use phonepad.TextOps.Registry.{Request, begins, calls}
use phonepad.Session.State.{ServerState, MutationPermit, capture_mutation_permit}
use phonepad.Session.Permissions.{input_scope}
use phonepad.Session.Leases.{InputLease}
use phonepad.TextOps.Transfer.History.{cancels}
use phonepad.TextUpload.Request.{
  UploadRequest, admit, works, HttpRequest, Admission, cancelling, is_op, reads, refused, renews,
}
use phonepad.TextUpload.World.{World, LiteralResult, Others, ask, meet, bounded_literal_focus, hold}
use phonepad.TextUpload.Commit.{upload_step}
use phonepad.TextUpload.Begin.{
  begin_upload, begin_unbound, probe_focus, publish_target, judged_focus,
}
use phonepad.TextUpload.Handler.{
  Adapter, cancel_upload, handle_input, insert_of, focus_of, serve_admitted,
}

pub admit_works :
    (s : ServerState) (now : ℕ) (q : UploadRequest) (permit : MutationPermit) (lease : InputLease)
    (target : Bytes)
    → admit s now q ≡ works permit lease target
    → (capture_mutation_permit s input_scope ≡ some permit)
      × (get q.session s.input_leases ≡ some lease)
unfolding admit
admit_works s now q permit lease target h = ground arith

module _ (sum256 : Bytes → Bytes) (others : ℕ → Others) where
  meet-dispatched : (w : World) (o : Others) → (meet sum256 w o).dispatched ≡ w.dispatched
  unfolding meet
  meet-dispatched w o = refl

  ask-dispatched : (w : World) (q : Request) → (ask sum256 w q).dispatched ≡ w.dispatched
  unfolding ask
  ask-dispatched w q = refl

  publish_target-Quiet :
      (w : World) (session : Bytes) (m : Manifest) (target : Bytes)
      → (publish_target sum256 others w session m target).dispatched ≡ w.dispatched
  unfolding publish_target
  publish_target-Quiet w session m target = ground arith

  probe_focus-Quiet :
      (w : World) (session : Bytes) (m : Manifest) (adapter : Option LiteralResult)
      → (probe_focus sum256 others w session m adapter).0.dispatched ≡ w.dispatched
  unfolding probe_focus
  probe_focus-Quiet w session m adapter =
      let asking = meet sum256 w (others 3) in
      let focus = judged_focus asking.server (bounded_literal_focus adapter) in
      let published = meet sum256 asking (others 4) in
      ground (
        arith,
        meet-dispatched w (others 3),
        meet-dispatched asking (others 4),
        publish_target-Quiet published session m focus.target,
      )

  begin_unbound-Quiet :
      (w : World) (session : Bytes) (m : Manifest) (permit : MutationPermit)
      (adapter : Option LiteralResult)
      → (begin_unbound sum256 others w session m permit adapter).0.dispatched ≡ w.dispatched
  unfolding begin_unbound meet ask
  begin_unbound-Quiet w session m permit adapter =
      ground (arith, probe_focus-Quiet (meet sum256 w (others 2)) session m adapter)

  begin_upload-Quiet :
      (w : World) (permit : MutationPermit) (q : UploadRequest) (target : Bytes)
      (adapter : Option (Option LiteralResult))
      → (begin_upload sum256 others w permit q target adapter).0.dispatched ≡ w.dispatched
  unfolding begin_upload
  begin_upload-Quiet w permit q target none =
      let before = meet sum256 w (others 0) in
      let after = ask sum256 before (begins q.manifest) in
      let held = meet sum256 after (others 1) in
      ground (
        arith,
        meet-dispatched w (others 0),
        ask-dispatched before (begins q.manifest),
        meet-dispatched after (others 1),
        ask-dispatched held (calls q.manifest.operation_id cancels),
      )
  begin_upload-Quiet w permit q target (some answer) =
      let before = meet sum256 w (others 0) in
      let after = ask sum256 before (begins q.manifest) in
      let held = meet sum256 after (others 1) in
      ground (
        arith,
        meet-dispatched w (others 0),
        ask-dispatched before (begins q.manifest),
        meet-dispatched after (others 1),
        begin_unbound-Quiet held q.session q.manifest permit answer,
      )

  cancel_upload-Quiet :
      (w : World) (id : Bytes) → (cancel_upload sum256 others w id).0.dispatched ≡ w.dispatched
  unfolding cancel_upload meet ask
  cancel_upload-Quiet w id = ground arith

  abbrev Works : ServerState → UploadRequest → Option Adapter → World → Admission → Type 0
  Works s q adapter w a =
      (permit : MutationPermit) × (lease : InputLease) × (target : Bytes) × (a
        ≡ works permit lease target)
      × (w ≡ (upload_step sum256 others (hold s lease) permit q target (insert_of adapter)).0)

  serve_admitted-Works :
      (s : ServerState) (q : UploadRequest) (now : ℕ) (random : Option Bytes)
      (adapter : Option Adapter) (w : World) (a : Admission)
      → (serve_admitted sum256 others s now random q adapter a).1 ≡ some w
      → w.dispatched ≢ []
      → Works s q adapter w a
  unfolding serve_admitted
  serve_admitted-Works s q now random adapter w (refused code text) h n = cc
  serve_admitted-Works s q now random adapter w (reads lease) h n = absurd (n (ground arith))
  serve_admitted-Works s q now random adapter w (cancelling lease) h n =
      absurd (n (ground (arith, cancel_upload-Quiet (hold s lease) q.operation_id)))
  serve_admitted-Works s q now random adapter w renews h n = cc
  serve_admitted-Works s q now random adapter w (works permit lease target) h n =
      elim (Bool-cases (is_op q (ascii "begin"))) [
        | inl e ↦ absurd (
            n (
              ground (arith, begin_upload-Quiet (hold s lease) permit q target (focus_of adapter))))
        | inr e ↦ (permit, lease, target, refl, ground arith)
      ]

  handle_input-admitted :
      (s : ServerState) (r : HttpRequest) (q : UploadRequest) (now : ℕ) (random : Option Bytes)
      (adapter : Option Adapter) (w : World)
      → r.body ≡ some q
      → (handle_input sum256 others s r now random adapter).1 ≡ some w
      → (serve_admitted sum256 others s now random q adapter (admit s now q)).1 ≡ some w
  unfolding handle_input
  handle_input-admitted s r q now random adapter w e h = ground arith

  -- The step that a request took if it dispatched a text.
  pub handle_input-works :
      (s : ServerState) (r : HttpRequest) (q : UploadRequest) (now : ℕ) (random : Option Bytes)
      (adapter : Option Adapter) (w : World)
      → r.body ≡ some q
      → (handle_input sum256 others s r now random adapter).1 ≡ some w
      → w.dispatched ≢ []
      → (permit : MutationPermit) × (lease : InputLease) × (target : Bytes) × (admit s now q
          ≡ works permit lease target)
        × (w ≡ (upload_step sum256 others (hold s lease) permit q target (insert_of adapter)).0)
  handle_input-works s r q now random adapter w e h n =
      serve_admitted-Works s q now random adapter w (admit s now q)
        (handle_input-admitted s r q now random adapter w e h) n
