-- ===== src/Worker/Turn.antt =====
-- One job of the worker while MinIO, the network and the database do what they are asked.
use project_6_document_class.Base.{
  ◌≤◌, ◌≡◌, String, true, [], ◌∷◌, arith, some, select, inl, inr, length,
}
use project_6_document_class.App.{Env, World, ok}
use project_6_document_class.App.Fresh.{IsFresh}
use project_6_document_class.Db.{BatchRow}
use project_6_document_class.Domain.{processing, done}
use project_6_document_class.Domain.Ieee.{Double}
use project_6_document_class.Repo.BatchRepo
use project_6_document_class.Blob.{Bytes, Bucket, max_file_bytes, get_object, download}
use project_6_document_class.Watcher
use project_6_document_class.Worker.{Job, to_create, answered, persist_async}
use project_6_document_class.Worker.Drawn.{moved-IsFresh, saved-IsFresh}
use project_6_document_class.Worker.Persist.{
  persist_async_pending, persist_async_processing, persist_async_over, status_cases,
}
use project_6_document_class.Worker.Classify.{Network, classify, classified, job_of, answer_of}

module _ (env : Env) (job : Job) (w : World) (x : BatchRow) where
  -- The ids that later jobs draw are new after this one.
  pub persist-IsFresh :
      select (BatchRepo.has_id job.batch_id) w.db.batches ≡ x ∷ []
      → IsFresh env w
      → IsFresh env (persist_async env answered job w).1
  persist-IsFresh e fresh = elim (status_cases x.status) [
    | inl p ↦ rw (persist_async_pending env job w x e p fresh) (
        moved-IsFresh env
          (saved-IsFresh env (moved-IsFresh env fresh job.batch_id x.status processing) job.batch_id
            (to_create job))
          job.batch_id processing done)
    | inr (inl p) ↦ rw (persist_async_processing env job w x e p fresh) (
        moved-IsFresh env (saved-IsFresh env fresh job.batch_id (to_create job)) job.batch_id
          x.status done)
    | inr (inr (p, q)) ↦
        rw (persist_async_over env job w x e p q fresh)
          (saved-IsFresh env fresh job.batch_id (to_create job))
  ]

module _ (env : Env) (network : Network) (j : Watcher.Job) (bucket : Bucket) (w : World) where
  -- A job whose parts succeed.
  pub classify_up :
      (content overlay : Bytes) (label : String) (confidence : Double)
      → get_object j.blob_key bucket ≡ some content
      → network.predict content ≡ some (label, confidence)
      → network.draw_overlay content label confidence ≡ some overlay
      → length overlay ≤ max_file_bytes
      → let job = job_of env network true true answered j label confidence in
        (persist_async env answered job w).0 ≡ ok tt
        → classify env network true true answered j bucket w ≡ (
          classified (answer_of env network true true answered j job),
          (job.overlay_key, overlay) ∷ bucket,
          (persist_async env answered job w).1,
        )
  unfolding classify download
  classify_up content overlay label confidence found predicted drawn small kept =
      ground (arith, found, predicted, drawn, kept)
