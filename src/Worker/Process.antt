-- ===== src/Worker/Process.antt =====
-- The process of a worker in app/workers/inference_worker.py: `_get_blob` and `_get_model` with
-- what they keep between the jobs, and the job as the process runs it.
pub mod Sound
use project_6_document_class.Base.{String, Bool, List, [], ◌∷◌, Option, none, some}
use project_6_document_class.Domain.Ieee.{Double}
use project_6_document_class.App.{Env, World}
use project_6_document_class.Blob.{Bytes, Bucket}
use project_6_document_class.Blob.Setup.{
  BlobStorage, Surroundings, Setup, opened, no_secret, no_bucket, get_blob_storage,
}
use project_6_document_class.Classifier.Predict.{
  Torch, Disk, Loaded, loaded, refused, unreadable, load_model, predict,
}
use project_6_document_class.Overlay.{Drawing, draw_overlay}
use project_6_document_class.Vault.{Client}
use project_6_document_class.Watcher
use project_6_document_class.Worker.{Deletions}
use project_6_document_class.Worker.Classify.{Network, Outcome, classify}

-- `_blob` and `_model`, with the client of Vault that the process keeps.
pub record Process (Model : Type 0) : Type 0 where
  pub blob : Option BlobStorage
  pub model : Option Model
  pub client : Client

-- The process, and what all processes share: the objects in MinIO, and the tables.
pub record Machine (Model : Type 0) : Type 0 where
  pub process : Process Model
  pub bucket : Bucket
  pub world : World

-- What one job finds outside: for the two set-ups, whether MinIO answers its download and its
-- upload, and the deletions that Redis answers.
pub record Moment : Type 0 where
  pub surroundings : Surroundings
  pub disk : Disk
  pub get_ok : Bool
  pub put_ok : Bool
  pub redis : Deletions

pub data Run (Model : Type 0) : Type 0 where
  no_storage : Setup → Run Model
  no_model : Loaded Model → Run Model
  ran : Outcome → Run Model

abbrev label_and_confidence : Option (String × Double × List Double) → Option (String × Double)
label_and_confidence none = none
label_and_confidence (some (label, confidence, all_scores)) = some (label, confidence)

module _ {Weights Model Tensor Image Font : Type 0} (torch : Torch Weights Model Tensor)
    (drawing : Drawing Image Font) (env : Env) where
  -- What `classify` calls, with the model of the process.
  abbrev pub network_of : Model → Network
  network_of model = record {
    predict = λ content. label_and_confidence (predict torch model content);
    draw_overlay = draw_overlay drawing;
  }

  abbrev pub keep_blob : Setup × List String × Client → Machine Model → Setup × Machine Model
  keep_blob (opened storage, buckets, client) m = (
    opened storage,
    record m { process = record m.process { blob = some storage; client = client } },
  )
  keep_blob (failure, buckets, client) m =
      (failure, record m { process = record m.process { client = client } })

  unfoldable pub get_blob : Surroundings → Machine Model → Setup × Machine Model
  unfolding get_blob_storage
  get_blob s m = elim m.process.blob [
    | some storage ↦ (opened storage, m)
    | none ↦ keep_blob (get_blob_storage s m.process.client) m
  ]

  abbrev pub keep_model : Loaded Model → Machine Model → Loaded Model × Machine Model
  keep_model (loaded model) m =
      (loaded model, record m { process = record m.process { model = some model } })
  keep_model failure m = (failure, m)

  unfoldable pub get_model : Moment → Machine Model → Loaded Model × Machine Model
  unfolding load_model
  get_model t m = elim m.process.model [
    | some model ↦ (loaded model, m)
    | none ↦ keep_model (load_model torch t.disk) m
  ]

  abbrev pub with_model :
      Moment → Watcher.Job → Loaded Model × Machine Model → Run Model × Machine Model
  with_model t j (loaded model, m) =
      let (outcome, bucket, world) =
        classify env (network_of model) t.get_ok t.put_ok t.redis j m.bucket m.world in
      (ran outcome, record m { bucket = bucket; world = world })
  with_model t j (failure, m) = (no_model failure, m)

  abbrev pub with_blob : Moment → Watcher.Job → Setup × Machine Model → Run Model × Machine Model
  with_blob t j (opened storage, m) = with_model t j (get_model t m)
  with_blob t j (failure, m) = (no_storage failure, m)

  -- `classify`, from the two set-ups on.
  unfoldable pub run_job : Moment → Watcher.Job → Machine Model → Run Model × Machine Model
  unfolding get_blob get_model classify
  run_job t j m = with_blob t j (get_blob t.surroundings m)

  -- The jobs that a process runs, one after another, each with what it finds.
  unfoldable pub run_jobs :
      List (Moment × Watcher.Job) → Machine Model → List (Run Model) × Machine Model
  unfolding run_job
  run_jobs [] m = ([], m)
  run_jobs ((t, j) ∷ rest) m =
      let (run, m₁) = run_job t j m in let (runs, m₂) = run_jobs rest m₁ in (run ∷ runs, m₂)
