-- ===== src/Worker/Unanswered.antt =====
-- What one job leaves behind where Redis does not answer.
use project_6_document_class.Domain.{processing}
use project_6_document_class.Db.{Db, BatchRow}
use project_6_document_class.App.{Env, World}
use project_6_document_class.Repo.BatchRepo
use project_6_document_class.BatchService.Transitions.{moved_world}
use project_6_document_class.Worker.{Job, Deletions}

module _ (env : Env) (redis : Deletions) (job : Job) (w : World) (x : BatchRow) where
  abbrev w₁ : World
  w₁ = moved_world env w job.batch_id x.status processing
