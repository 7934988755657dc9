-- ===== src/App/Fresh.antt =====
-- What the program relies on of `uuid.uuid4()`: it never returns an id twice, nor one in use.
use project_6_document_class.Base.{ℕ, ◌≤◌, ◌≡◌, false, exists}
use project_6_document_class.App.{Env, World}
use project_6_document_class.Repo.UserRepo
use project_6_document_class.Repo.BatchRepo
use project_6_document_class.Repo.PredictionRepo
use project_6_document_class.Repo.AuditRepo

pub record IsFresh (env : Env) (w : World) : Type 0 where
  pub uuid4_inj : (m n : ℕ) → env.uuid4 m ≡ env.uuid4 n → m ≡ n
  pub users : (n : ℕ) → w.draws ≤ n → exists (UserRepo.has_id (env.uuid4 n)) w.db.users ≡ false
  pub batches : (n : ℕ) → w.draws ≤ n → exists (BatchRepo.has_id (env.uuid4 n)) w.db.batches ≡ false
  pub predictions :
      (n : ℕ) → w.draws ≤ n → exists (PredictionRepo.has_id (env.uuid4 n)) w.db.predictions ≡ false
  pub audit_logs :
      (n : ℕ) → w.draws ≤ n → exists (AuditRepo.has_id (env.uuid4 n)) w.db.audit_logs ≡ false
