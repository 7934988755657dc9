-- ===== src/Worker.antt =====
-- app/workers/inference_worker.py: what `_persist_async` does with the services, and `classify`.
-- app/workers/sftp_ingest.py: the callback that creates a batch.
pub mod Persist
pub mod Drawn
pub mod Turn
pub mod Unanswered
pub mod Classify
pub mod Labels
pub mod Process
pub mod IngestMain
use project_6_document_class.Base.{ℕ, String, Option, none, some}
use project_6_document_class.Domain.{Batch, BatchCreate, Prediction, PredictionCreate}
use project_6_document_class.Domain.Ieee.{Double}
use project_6_document_class.App.{
  Env, App, Error, Result, ok, err, invalid_state_transition, pure, raise, ◌>>=◌, ◌>>◌,
}
use project_6_document_class.Cache.{under_redis}
use project_6_document_class.BatchService.{create_batch, mark_processing, mark_done}
use project_6_document_class.PredictionService.{save_prediction}

-- `except InvalidStateTransition`: that error alone is caught.
abbrev pub skip : Error → App Unit
skip (invalid_state_transition message) = pure tt
skip e = raise e

-- `try: await ...; except InvalidStateTransition: log.debug(...)`.
abbrev pub attempt : {A : Type 0} → App A → App Unit
attempt m w = let (r, w') = m w in elim r [ ok a ↦ (ok tt, w') | err e ↦ skip e w' ]

-- The keyword arguments of `_persist`.
pub record Job : Type 0 where
  pub batch_id : String
  pub blob_key : String
  pub overlay_key : String
  pub filename : String
  pub label : String
  pub confidence : Double

abbrev pub to_create : Job → PredictionCreate
to_create j = record {
  batch_id = j.batch_id;
  filename = j.filename;
  blob_key = j.blob_key;
  overlay_key = j.overlay_key;
  predicted_class = j.label;
  confidence = j.confidence;
}

-- How many deletions Redis answers in each of the three calls of a job, before it raises.
pub record Deletions : Type 0 where
  pub at_start : Option ℕ
  pub at_save : Option ℕ
  pub at_end : Option ℕ

-- Redis answers all of them.
abbrev pub answered : Deletions
answered = record { at_start = none; at_save = none; at_end = none }

module _ (env : Env) where
  unfoldable pub persist_async : Deletions → Job → App Unit
  unfolding under_redis
  persist_async redis job = do
    attempt (under_redis redis.at_start (mark_processing env job.batch_id))
    under_redis redis.at_save (save_prediction env job.batch_id (to_create job))
    attempt (under_redis redis.at_end (mark_done env job.batch_id))

  -- `_create_batch` of the ingest worker.
  unfoldable pub ingest_create_batch : Option ℕ → ℕ → App String
  unfolding create_batch under_redis
  ingest_create_batch redis file_count = do
    batch ←
        under_redis redis
          (create_batch env (some (record { id = none; file_count = file_count })) none)
    pure batch.id
