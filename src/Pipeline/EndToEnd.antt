-- ===== src/Pipeline/EndToEnd.antt =====
-- From the upload of documents to their predictions.
use project_6_document_class.Base.{
  ℕ, ◌+◌, ◌≤◌, ◌≡◌, ◌≢◌, sym, ap, ◌∙◌, subst, String, List, [], ◌++◌, some, map, arith, length, All,
  inl, inr,
}
use project_6_document_class.Domain.{User, Batch}
use project_6_document_class.App.{Env, World, Result, ok}
use project_6_document_class.App.Laws.{Result-cases}
use project_6_document_class.App.Fresh.{IsFresh}
use project_6_document_class.Routers.{Enforcer}
use project_6_document_class.BatchService.Created
use project_6_document_class.BatchService.Created.{
  create_batch_ok, created_alone, new_row, created_world,
}
use project_6_document_class.Upload.{
  UploadFile, Site, Reply, Queued, accepted, store_and_queue, upload_documents,
}
use project_6_document_class.Upload.Outcomes.{store_and_queue_lem, job_of}
use project_6_document_class.Worker.Drawn.{drawn}
use project_6_document_class.Worker.Classify.{Network}
use project_6_document_class.Pipeline.{Turn, Dequeue, IsFifo, drain}
use project_6_document_class.Pipeline.Stored.{names, IsDistinct, files-IsStored}
use project_6_document_class.Pipeline.Batch.{Delivered, created-Delivered}
use project_6_document_class.Pipeline.Delivery.{IsAble, IsUp, IsPlain}

module _ (env : Env) (enforcer : Enforcer) (files : List UploadFile) (actor : User) (s : Site) where
  abbrev made : Result Batch × World
  made = Created.made env (length files) (some actor) s.world

  abbrev stored : Batch → Reply × Site
  stored v =
      store_and_queue v.id (env.uuid4 made.1.draws) files []
        (record s { world = record made.1 { draws = made.1.draws + 1 } })

  -- An accepted upload has made its batch and then stored its files, of which there is one.
  accepted_run :
      {b r : String} {n : ℕ} {out : List Queued}
      → (upload_documents env enforcer files actor s).0 ≡ accepted b n r out
      → (v : Batch) × (made.0 ≡ ok v)
        × (upload_documents env enforcer files actor s ≡ stored v)
        × (files ≢ [])
  unfolding upload_documents
  accepted_run h = elim (Result-cases made.0) [
    | inr (x, e) ↦ absurd (ground (arith, e, h))
    | inl (v, e) ↦ (v, e, ground (arith, e, h), λ none_given. ground (arith, h, none_given))
  ]

module _ (env : Env) (network : Network) (dequeue : Dequeue) (fifo : IsFifo dequeue)
    (enforcer : Enforcer) (files : List UploadFile) (actor : User) (s : Site) where
  -- From an upload to its predictions, under these conditions. RQ hands out jobs in the order of
  -- the queue, each once; MinIO answers the workers, and Redis their deletions; the network
  -- classifies the document of each file, and its overlay is drawn and within the size limit. If
  -- an upload is accepted while the queue is empty and the drawn ids are fresh, its file names
  -- are distinct and without a slash, and the workers take at least as many turns as it has
  -- files, then the queue is empty again; the table of predictions has exactly one more row for
  -- each file, in their order, with the answer's batch, the file's name, and the label and the
  -- confidence that the network gives for that file's own content; and the batch is alone under
  -- its id, is done, and counts the files.
  pub upload-Delivered :
      {b r : String} {n : ℕ} {out : List Queued} (ts : List Turn)
      → (upload_documents env enforcer files actor s).0 ≡ accepted b n r out
      → IsFresh env s.world
      → s.queue ≡ []
      → IsDistinct (names files)
      → All (IsAble network) files
      → All IsPlain files
      → All IsUp ts
      → length files ≤ length ts
      → let s' = (drain env network dequeue ts (upload_documents env enforcer files actor s).1).1 in
        Delivered network files s b s'
  upload-Delivered {b} {r} {n} {out} ts h fresh idle distinct able plain up enough =
      let (v, e, run, some_file) =
        accepted_run env enforcer files actor s {b = b} {r = r} {n = n} {out = out} h in
      let s₁ : Site = (stored env enforcer files actor s v).1 in
      let k : (stored env enforcer files actor s v).0 ≡ accepted b n r out =
        ap (λ x. x.0) (sym run) ∙ h in
      let r₁ = env.uuid4 (made env enforcer files actor s).1.draws in
      let (same_b, _, _, _, queue, world) = store_and_queue_lem v.id r₁ files [] _ k in
      let after = (create_batch_ok env (length files) (some actor) s.world e).2 in
      let result : Delivered network files s v.id (drain env network dequeue ts s₁).1 =
        created-Delivered env network dequeue fifo files (some actor) s {v = v} r₁ ts s₁ e
          (1, world ∙ ap (drawn 1) after) (queue ∙ ap (λ q. q ++ map (job_of v.id r₁) files) idle)
          (files-IsStored v.id r₁ files [] _ k distinct) fresh some_file able plain up enough in
      subst
        (λ i.
          Delivered network files s i
            (drain env network dequeue ts (upload_documents env enforcer files actor s).1).1)
        (sym same_b)
        (subst
          (λ (x : Reply × Site).
            Delivered network files s v.id (drain env network dequeue ts x.1).1)
          (sym run) result)
