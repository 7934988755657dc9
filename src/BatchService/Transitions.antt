-- ===== src/BatchService/Transitions.antt =====
-- The life cycle of a batch: which moves the service makes, and what a move writes.
use project_6_document_class.Base.{
  ℕ, ◌+◌, ◌≡◌, ◌≢◌, true, false, String, List, [], ◌∷◌, ◌++◌, arith, select, update, exists,
  rows_cases, inl, inr, none,
}
use project_6_document_class.Domain.{
  BatchStatus, pending, processing, done, Batch, status_in, status_value, str, AuditLogEntry,
}
use project_6_document_class.Db.{Db, BatchRow, to_batch}
use project_6_document_class.App.{Env, World, Error, ok, err, not_found, invalid_state_transition}
use project_6_document_class.Cache.{batches_list_key, batch_key}
use project_6_document_class.Repo.BatchRepo
use project_6_document_class.Repo.AuditRepo
use project_6_document_class.BatchService.{
  transition, mark_processing, mark_done, batch_target, cannot_move,
}

-- The entry that a move leaves.
abbrev pub move_entry : Env → ℕ → String → BatchStatus → BatchStatus → AuditLogEntry
move_entry env draws id old new = record {
  id = env.uuid4 (draws + 1);
  actor_id = none;
  action = "batch_state_change";
  target = batch_target id;
  details = ("from", str (status_value old)) ∷ ("to", str (status_value new)) ∷ [];
  timestamp = env.now (draws + 1 + 1);
}

-- The database after a move.
abbrev pub moved : Env → World → String → BatchStatus → BatchStatus → Db
moved env w id old new = record w.db {
  batches = update (BatchRepo.has_id id) (BatchRepo.with_status new (env.now w.draws)) w.db.batches;
  audit_logs = w.db.audit_logs ++ move_entry env w.draws id old new ∷ [];
}

abbrev pub moved_world : Env → World → String → BatchStatus → BatchStatus → World
moved_world env w id old new = record {
  db = moved env w id old new;
  deleted = (w.deleted ++ batch_key id ∷ []) ++ batches_list_key ∷ [];
  draws = w.draws + 1 + 1 + 1;
}

module _ (env : Env) (id : String) (new : BatchStatus) (allowed : List BatchStatus)
    (w : World) where
  abbrev w' : World
  w' = (transition env id new allowed w).1

  pub transition_ok :
      {v : Batch}
      → (transition env id new allowed w).0 ≡ ok v
      → (x : BatchRow) × (select (BatchRepo.has_id id) w.db.batches ≡ x ∷ [])
        × (status_in x.status allowed ≡ true)
        × (w'.db ≡ moved env w id x.status new)
        × (w'.deleted ≡ (w.deleted ++ batch_key id ∷ []) ++ batches_list_key ∷ [])
        × (v ≡ to_batch (BatchRepo.with_status new (env.now w.draws) x))
  unfolding transition
  transition_ok h = elim (rows_cases (select (BatchRepo.has_id id) w.db.batches)) [
    | inl e ↦ absurd (ground (arith, e))
    | inr (inl (x, e)) ↦
        (x, e, ground (arith, e), ground (arith, e), ground (arith, e), ground (arith, e))
    | inr (inr (x, y, zs, e)) ↦ absurd (ground (arith, e))
  ]

  pub transition_error :
      {e : Error}
      → (transition env id new allowed w).0 ≡ err e
      → (w'.db ≡ w.db) × (w'.deleted ≡ w.deleted)
  unfolding transition
  transition_error h = ground arith

  pub transition_missing :
      select (BatchRepo.has_id id) w.db.batches ≡ []
      → (transition env id new allowed w).0 ≡ err (not_found "Batch not found")
  unfolding transition
  transition_missing e = ground arith

  -- A batch whose status allows the move makes it; the id drawn for the log entry must be new.
  pub transition_enabled :
      (x : BatchRow)
      → select (BatchRepo.has_id id) w.db.batches ≡ x ∷ []
      → status_in x.status allowed ≡ true
      → exists (AuditRepo.has_id (env.uuid4 (w.draws + 1))) w.db.audit_logs ≡ false
      → transition env id new allowed w ≡ (
        ok (to_batch (BatchRepo.with_status new (env.now w.draws) x)),
        moved_world env w id x.status new,
      )
  unfolding transition
  transition_enabled x e h fresh = ground arith

  -- A refused move leaves the whole state as it was, the environment's draws included.
  pub transition_refused :
      (x : BatchRow)
      → select (BatchRepo.has_id id) w.db.batches ≡ x ∷ []
      → status_in x.status allowed ≡ false
      → transition env id new allowed w
        ≡ (err (invalid_state_transition (cannot_move x.status new)), w)
  unfolding transition
  transition_refused x e h = ground arith

module _ (env : Env) (id : String) (w : World) (x : BatchRow)
    (e : select (BatchRepo.has_id id) w.db.batches ≡ x ∷ []) where
  pub mark_processing_pending :
      x.status ≡ pending
      → exists (AuditRepo.has_id (env.uuid4 (w.draws + 1))) w.db.audit_logs ≡ false
      → mark_processing env id w ≡ (
        ok (to_batch (BatchRepo.with_status processing (env.now w.draws) x)),
        moved_world env w id x.status processing,
      )
  unfolding mark_processing
  mark_processing_pending p fresh =
      transition_enabled env id processing (pending ∷ []) w x e (rw p) fresh

  pub mark_processing_late :
      x.status ≢ pending
      → mark_processing env id w
        ≡ (err (invalid_state_transition (cannot_move x.status processing)), w)
  unfolding mark_processing
  mark_processing_late p = transition_refused env id processing (pending ∷ []) w x e (ground arith)

  pub mark_done_processing :
      x.status ≡ processing
      → exists (AuditRepo.has_id (env.uuid4 (w.draws + 1))) w.db.audit_logs ≡ false
      → mark_done env id w ≡ (
        ok (to_batch (BatchRepo.with_status done (env.now w.draws) x)),
        moved_world env w id x.status done,
      )
  unfolding mark_done
  mark_done_processing p fresh = transition_enabled env id done (processing ∷ []) w x e (rw p) fresh

  pub mark_done_late :
      x.status ≢ processing
      → mark_done env id w ≡ (err (invalid_state_transition (cannot_move x.status done)), w)
  unfolding mark_done
  mark_done_late p = transition_refused env id done (processing ∷ []) w x e (ground arith)
