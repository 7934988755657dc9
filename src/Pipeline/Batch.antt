-- ===== src/Pipeline/Batch.antt =====
-- The batch of some files, from its making to its end.
use project_6_document_class.Base.{
  ℕ, ◌≤◌, ◌≡◌, ◌≢◌, refl, sym, ap, ◌∙◌, subst, String, List, [], ◌∷◌, ◌++◌, Option, map, length,
  All, select,
}
use project_6_document_class.Domain.{pending, done, Batch, User, Prediction}
use project_6_document_class.Db.{BatchRow}
use project_6_document_class.App.{Env, World, ok}
use project_6_document_class.App.Fresh.{IsFresh}
use project_6_document_class.Repo.BatchRepo
use project_6_document_class.BatchService.Created.{
  made, create_batch_ok, created_alone, new_row, created_world,
}
use project_6_document_class.Upload.{UploadFile, Site}
use project_6_document_class.Upload.Outcomes.{job_of}
use project_6_document_class.Worker.Drawn.{drawn, created-IsFresh, drawn-IsFresh}
use project_6_document_class.Worker.Classify.{Network}
use project_6_document_class.Pipeline.{Turn, Dequeue, IsFifo, drain}
use project_6_document_class.Pipeline.Stored.{IsStored}
use project_6_document_class.Pipeline.Delivery.{
  IsAble, IsUp, IsPlain, Matches, status_after, delivered,
}

status_done : (fs : List UploadFile) → status_after fs done ≡ done
status_done [] = refl
status_done (f ∷ fs) = status_done fs

status_pending : (fs : List UploadFile) → fs ≢ [] → status_after fs pending ≡ done
status_pending [] some_file = absurd (some_file refl)
status_pending (f ∷ fs) some_file = status_done fs

-- What has become of the files of a batch that was made over a site, once the queue is empty.
abbrev pub Delivered : Network → List UploadFile → Site → String → Site → Type 0
Delivered network files s b s' =
    (s'.queue ≡ [])
    × ((ps : List Prediction) × (s'.world.db.predictions ≡ s.world.db.predictions ++ ps)
        × Matches network b files ps)
    × ((y : BatchRow) × (select (BatchRepo.has_id b) s'.world.db.batches ≡ y ∷ [])
        × (y.status ≡ done)
        × (y.file_count ≡ length files))

module _ (env : Env) (network : Network) (dequeue : Dequeue) (fifo : IsFifo dequeue)
    (files : List UploadFile) (actor : Option User) (s : Site) where
  -- The files of a batch that is made now, once they are stored and queued.
  pub created-Delivered :
      {v : Batch} (r : String) (ts : List Turn) (s₁ : Site)
      → (made env (length files) actor s.world).0 ≡ ok v
      → ((k : ℕ) × (s₁.world ≡ drawn k (created_world env (length files) actor s.world)))
      → s₁.queue ≡ map (job_of v.id r) files
      → All (IsStored v.id r s₁.bucket) files
      → IsFresh env s.world
      → files ≢ []
      → All (IsAble network) files
      → All IsPlain files
      → All IsUp ts
      → length files ≤ length ts
      → Delivered network files s v.id (drain env network dequeue ts s₁).1
  created-Delivered {v} r ts s₁ e (k, at_start) queue stored fresh some_file able plain up enough =
      let (free, is_row, _) = create_batch_ok env (length files) actor s.world e in
      let alone : select (BatchRepo.has_id v.id) s₁.world.db.batches
          ≡ new_row env (length files) actor s.world ∷ [] =
        ap (λ (w : World). select (BatchRepo.has_id v.id) w.db.batches) at_start
        ∙ ap
            (λ (x : Batch).
              select (BatchRepo.has_id x.id)
                (created_world env (length files) actor s.world).db.batches)
            is_row
        ∙ created_alone env (length files) actor s.world free in
      let (empty, (ps, added, matches), (y, row, status, count)) =
        delivered env network dequeue fifo v.id r ts files s₁ _ up enough able queue stored plain
          alone
          (subst (IsFresh env) (sym at_start)
            (drawn-IsFresh env (created-IsFresh env fresh (length files) actor) k)) in
      (
        empty,
        (ps, added ∙ ap (λ (w : World). w.db.predictions ++ ps) at_start, matches),
        (y, row, status ∙ status_pending files some_file, count),
      )
