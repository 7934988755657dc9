-- ===== src/Worker/Persist.antt =====
-- What one job leaves behind.
use project_6_document_class.Base.{
  ℕ, ◌+◌, ◌≡◌, ◌≢◌, refl, false, [], ◌∷◌, ◌++◌, arith, select, exists, eq_iff, ◌==◌, ◌⊎◌, inl, inr,
}
use project_6_document_class.Base.RowLaws.{exists_of_select, exists-append}
use project_6_document_class.Domain.{BatchStatus, pending, processing, done, failed, Prediction}
use project_6_document_class.Db.{BatchRow}
use project_6_document_class.App.{Env, World, ok}
use project_6_document_class.App.Fresh.{IsFresh}
use project_6_document_class.Repo.BatchRepo
use project_6_document_class.Repo.AuditRepo
use project_6_document_class.BatchService.Transitions.{moved_world}
use project_6_document_class.BatchService.Transitions.{
  mark_processing_pending, mark_done_processing, mark_processing_late, mark_done_late,
}
use project_6_document_class.BatchService.Machine.{moved_self}
use project_6_document_class.PredictionService.Saves.{saved, saved_world, save_prediction_enabled}
use project_6_document_class.Worker.{Job, to_create, answered, persist_async}

module _ (env : Env) (job : Job) (w : World) (x : BatchRow) where
  -- The state after `mark_processing` and `save_prediction`.
  abbrev pub w₁ : World
  w₁ = moved_world env w job.batch_id x.status processing

  abbrev pub w₂ : World
  w₂ = saved_world env job.batch_id (to_create job) w₁

  abbrev pub w₃ : World
  w₃ = moved_world env w₂ job.batch_id processing done

  -- Two draws that are not the same one are not the same id.
  other_draw : IsFresh env w → (m n : ℕ) → m ≢ n → (env.uuid4 m == env.uuid4 n) ≡ false
  other_draw fresh m n ne = ground (arith, eq_iff (env.uuid4 m) (env.uuid4 n), fresh.uuid4_inj m n)

  fresh_for_done :
      IsFresh env w → exists (AuditRepo.has_id (env.uuid4 (w₂.draws + 1))) w₂.db.audit_logs ≡ false
  fresh_for_done fresh =
      rw (exists-append, fresh.audit_logs (w₂.draws + 1) (omega arith))
        (unfold exists in rw (other_draw fresh (w.draws + 1) (w₂.draws + 1) (omega arith)))

  pub persist_async_pending :
      select (BatchRepo.has_id job.batch_id) w.db.batches ≡ x ∷ []
      → x.status ≡ pending
      → IsFresh env w
      → persist_async env answered job w ≡ (ok tt, w₃)
  unfolding persist_async
  persist_async_pending e p fresh =
      let sel = moved_self env w job.batch_id x.status processing x e in
      ground (
        arith,
        mark_processing_pending env job.batch_id w x e p
            (fresh.audit_logs (w.draws + 1) (omega arith)),
        save_prediction_enabled env job.batch_id (to_create job) w₁ (exists_of_select _ _ _ [] sel)
            (fresh.predictions (w₁.draws + 1) (omega arith)),
        mark_done_processing env job.batch_id w₂
            (BatchRepo.with_status processing (env.now w.draws) x) sel refl (fresh_for_done fresh),
      )

  -- The state after `save_prediction` and `mark_done`, where the batch is processing already.
  abbrev pub v₂ : World
  v₂ = saved_world env job.batch_id (to_create job) w

  abbrev pub v₃ : World
  v₃ = moved_world env v₂ job.batch_id x.status done

  pub persist_async_processing :
      select (BatchRepo.has_id job.batch_id) w.db.batches ≡ x ∷ []
      → x.status ≡ processing
      → IsFresh env w
      → persist_async env answered job w ≡ (ok tt, v₃)
  unfolding persist_async
  persist_async_processing e p fresh = ground (
    arith,
    mark_processing_late env job.batch_id w x e (ground arith),
    save_prediction_enabled env job.batch_id (to_create job) w (exists_of_select _ _ _ [] e)
        (fresh.predictions (w.draws + 1) (omega arith)),
    mark_done_processing env job.batch_id v₂ x e p (fresh.audit_logs (v₂.draws + 1) (omega arith)),
  )

  pub persist_async_over :
      select (BatchRepo.has_id job.batch_id) w.db.batches ≡ x ∷ []
      → x.status ≢ pending
      → x.status ≢ processing
      → IsFresh env w
      → persist_async env answered job w ≡ (ok tt, v₂)
  unfolding persist_async
  persist_async_over e p q fresh = ground (
    arith,
    mark_processing_late env job.batch_id w x e p,
    save_prediction_enabled env job.batch_id (to_create job) w (exists_of_select _ _ _ [] e)
        (fresh.predictions (w.draws + 1) (omega arith)),
    mark_done_late env job.batch_id v₂ x e q,
  )

pub status_cases :
    (s : BatchStatus) → (s ≡ pending) ⊎ (s ≡ processing) ⊎ ((s ≢ pending) × (s ≢ processing))
status_cases pending = inl refl
status_cases processing = inr (inl refl)
status_cases done = inr (inr (ground arith))
status_cases failed = inr (inr (ground arith))

-- The status that a batch has after a job.
abbrev pub after_job : BatchStatus → BatchStatus
after_job failed = failed
after_job _ = done

module _ (env : Env) (job : Job) (w : World) (x : BatchRow) where
  -- If Redis answers the deletions, the batch of a job is alone under its id and the drawn ids
  -- are fresh, the persistence step of the job returns without an error, whatever the batch's
  -- status. It adds exactly one prediction, with the job's batch, file name, label and
  -- confidence. The batch is then done, whatever the number of its files, but a failed batch
  -- stays failed.
  pub persist_async_lem :
      select (BatchRepo.has_id job.batch_id) w.db.batches ≡ x ∷ []
      → IsFresh env w
      → let (r, w') = persist_async env answered job w in
        (r ≡ ok tt)
        × ((y : BatchRow) × (select (BatchRepo.has_id job.batch_id) w'.db.batches ≡ y ∷ [])
            × (y.status ≡ after_job x.status)
            × (y.file_count ≡ x.file_count))
        × ((p : Prediction) × (w'.db.predictions ≡ w.db.predictions ++ p ∷ [])
            × (p.batch_id ≡ job.batch_id)
            × (p.filename ≡ job.filename)
            × (p.predicted_class ≡ job.label)
            × (p.confidence ≡ job.confidence))
  persist_async_lem e fresh = elim (status_cases x.status) [
    | inl p ↦ rw (persist_async_pending env job w x e p fresh) (
      refl,
      (
        _,
        moved_self env (w₂ env job w x) job.batch_id processing done _
            (moved_self env w job.batch_id x.status processing x e),
        rw p,
        refl,
      ),
      (saved env job.batch_id (to_create job) (w₁ env job w x), refl, refl, refl, refl, refl),
    )
    | inr (inl p) ↦ rw (persist_async_processing env job w x e p fresh) (
      refl,
      (_, moved_self env (v₂ env job w x) job.batch_id x.status done x e, rw p, refl),
      (saved env job.batch_id (to_create job) w, refl, refl, refl, refl, refl),
    )
    | inr (inr (p, q)) ↦ rw (persist_async_over env job w x e p q fresh) (
      refl,
      (x, e, ground arith, refl),
      (saved env job.batch_id (to_create job) w, refl, refl, refl, refl, refl),
    )
  ]
