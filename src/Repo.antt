-- ===== src/Repo.antt =====
-- The repositories of app/repositories. They run inside a transaction that a service has opened.
pub mod UserRepo
pub mod BatchRepo
pub mod PredictionRepo
pub mod AuditRepo
pub mod OrderBy
