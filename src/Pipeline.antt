-- ===== src/Pipeline.antt =====
-- The way of a document through the processes: app/api/routers/upload.py queues the jobs, and the
-- worker of app/workers/inference_worker.py takes them. RQ hands a worker the oldest job, once; a
-- job that raises goes to RQ's failed queue and is not tried again.
pub mod Stored
pub mod Delivery
pub mod Batch
pub mod EndToEnd
pub mod Ingest
use project_6_document_class.Base.{◌≡◌, Bool, List, [], ◌∷◌, ◌++◌, Option, none, some}
use project_6_document_class.App.{Env}
use project_6_document_class.Upload.{Site}
use project_6_document_class.Watcher.{Job}
use project_6_document_class.Worker.{Deletions}
use project_6_document_class.Worker.Classify.{Network, Outcome, classify}

-- Whether MinIO answers the download and the upload of one job, and the deletions that Redis
-- answers.
pub record Turn : Type 0 where
  pub get_ok : Bool
  pub put_ok : Bool
  pub redis : Deletions

-- How RQ takes a job from the queue: the job, and the queue without it.
abbrev pub Dequeue : Type 0
Dequeue = List Job → Option (Job × List Job)

-- RQ's documented order: the first job in is the first one out, and it is handed out once.
abbrev pub IsFifo : Dequeue → Type 0
IsFifo dequeue = (dequeue [] ≡ none) × ((j : Job) (js : List Job) → dequeue (j ∷ js) ≡ some (j, js))

module _ (env : Env) (network : Network) (dequeue : Dequeue) where
  -- The job that a worker has taken; without one it waits.
  unfoldable pub work : Turn → Site → Option (Job × List Job) → List Outcome × Site
  unfolding classify
  work t s none = ([], s)
  work t s (some (j, js)) =
      let (outcome, bucket, world) =
        classify env network t.get_ok t.put_ok t.redis j s.bucket s.world in
      (outcome ∷ [], record s { world = world; bucket = bucket; queue = js })

  -- Turns of workers, each over the queue as it finds it.
  unfoldable pub drain : List Turn → Site → List Outcome × Site
  unfolding work
  drain [] s = ([], s)
  drain (t ∷ ts) s =
      let (first, s₁) = work t s (dequeue s.queue) in
      let (rest, s₂) = drain ts s₁ in (first ++ rest, s₂)
