-- ===== src/Db.antt =====
-- The tables of app/db/models.py. A table is the list of its rows in the order of insertion. The
-- rows of `predictions` and `audit_logs` have the fields of their domain models, which serve for
-- both.
use project_6_document_class.Base.{ℕ, String, Bool, List}
use project_6_document_class.Domain.{Role, User, BatchStatus, Batch, Prediction, AuditLogEntry}

pub record UserRow : Type 0 where
  pub id : String
  pub email : String
  pub hashed_password : String
  pub role : Role
  pub is_active : Bool
  pub created_at : ℕ
  pub updated_at : ℕ

-- `User.model_validate` on a row.
abbrev pub to_user : UserRow → User
to_user u = record {
  id = u.id;
  email = u.email;
  role = u.role;
  is_active = u.is_active;
  created_at = u.created_at;
}

pub record BatchRow : Type 0 where
  pub id : String
  pub status : BatchStatus
  pub file_count : ℕ
  pub created_at : ℕ
  pub updated_at : ℕ

-- `Batch.model_validate` on a row.
abbrev pub to_batch : BatchRow → Batch
to_batch b = record {
  id = b.id;
  status = b.status;
  file_count = b.file_count;
  created_at = b.created_at;
}

pub record Db : Type 0 where
  pub users : List UserRow
  pub batches : List BatchRow
  pub predictions : List Prediction
  pub audit_logs : List AuditLogEntry
