-- ===== src/BatchService/Created.antt =====
-- What `create_batch` writes, for a batch whose id is drawn.
use project_6_document_class.Base.{
  ℕ, ◌+◌, ◌≡◌, ap, ◌∙◌, eq_refl, false, [], ◌∷◌, ◌++◌, Option, none, some, arith, exists, select,
}
use project_6_document_class.Base.RowLaws.{select-append, select-exists_none}
use project_6_document_class.Domain.{pending, Batch, User, AuditLogEntry, num}
use project_6_document_class.Db.{BatchRow, to_batch}
use project_6_document_class.App.{Env, World, Error, Result, ok, err}
use project_6_document_class.Cache.{batches_list_key}
use project_6_document_class.Repo.BatchRepo
use project_6_document_class.BatchService.{create_batch, batch_target, actor_id}

module _ (env : Env) (n : ℕ) (actor : Option User) (w : World) where
  abbrev pub made : Result Batch × World
  made = create_batch env (some (record { id = none; file_count = n })) actor w

  abbrev pub new_row : BatchRow
  new_row = record {
    id = env.uuid4 w.draws;
    status = pending;
    file_count = n;
    created_at = env.now (w.draws + 1);
    updated_at = env.now (w.draws + 1);
  }

  abbrev pub new_entry : AuditLogEntry
  new_entry = record {
    id = env.uuid4 (w.draws + 1 + 1);
    actor_id = actor_id actor;
    action = "batch_created";
    target = batch_target (env.uuid4 w.draws);
    details = ("file_count", num n) ∷ [];
    timestamp = env.now (w.draws + 1 + 1 + 1);
  }

  abbrev pub created_world : World
  created_world = record {
    db = record w.db {
      batches = w.db.batches ++ new_row ∷ [];
      audit_logs = w.db.audit_logs ++ new_entry ∷ [];
    };
    deleted = w.deleted ++ batches_list_key ∷ [];
    draws = w.draws + 1 + 1 + 1 + 1;
  }

  pub create_batch_error : {e : Error} → made.0 ≡ err e → made.1.db ≡ w.db
  unfolding create_batch
  create_batch_error h = ground arith

  pub create_batch_ok :
      {v : Batch}
      → made.0 ≡ ok v
      → (exists (BatchRepo.has_id new_row.id) w.db.batches ≡ false)
        × (v ≡ to_batch new_row)
        × (made.1 ≡ created_world)
  unfolding create_batch
  create_batch_ok h = (ground arith, ground arith, ground arith)

  pub new_row_self : select (BatchRepo.has_id new_row.id) (new_row ∷ []) ≡ new_row ∷ []
  unfolding select
  new_row_self = rw (eq_refl new_row.id)

  -- The new batch is alone under its id.
  pub created_alone :
      exists (BatchRepo.has_id new_row.id) w.db.batches ≡ false
      → select (BatchRepo.has_id new_row.id) created_world.db.batches ≡ new_row ∷ []
  created_alone free =
      select-append (BatchRepo.has_id new_row.id) w.db.batches (new_row ∷ [])
      ∙ ap (λ rows. rows ++ select (BatchRepo.has_id new_row.id) (new_row ∷ []))
          (select-exists_none (BatchRepo.has_id new_row.id) w.db.batches free)
      ∙ new_row_self
