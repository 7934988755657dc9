-- ===== src/BatchService.antt =====
-- app/services/batch_service.py.
pub mod Transitions
pub mod Created
pub mod Machine
use Prim.Native.String.{◌++◌ as ◌+++◌}
use project_6_document_class.Base.{ℕ, String, Bool, not, List, [], ◌∷◌, Option, none, some, map}
use project_6_document_class.Domain.{
  User, BatchStatus, pending, processing, done, failed, Batch, BatchCreate, status_in, status_value,
  str, num,
}
use project_6_document_class.Db.{BatchRow}
use project_6_document_class.App.{
  Env, App, not_found, invalid_state_transition, pure, raise, raise_if, begin, ◌>>=◌, ◌>>◌,
}
use project_6_document_class.Repo.BatchRepo
use project_6_document_class.Repo.AuditRepo
use project_6_document_class.Repo.OrderBy.{OrderBy}
use project_6_document_class.Cache
use project_6_document_class.Cache.{batches_list_key, batch_key}

-- `if not batch: raise NotFound(...)`, and the same for what an update returns.
abbrev or_not_found : {A : Type 0} → String → Option A → App A
or_not_found message none = raise (not_found message)
or_not_found message (some a) = pure a

-- `f"batch:{id}"`, the target of an audit entry.
abbrev pub batch_target : String → String
batch_target batch_id = "batch:" +++ batch_id

abbrev pub actor_id : Option User → Option String
actor_id none = none
actor_id (some actor) = some actor.id

abbrev pub or_default : Option BatchCreate → BatchCreate
or_default none = record { id = none; file_count = 0 }
or_default (some form) = form

-- The message of a refused transition.
abbrev cannot_move : BatchStatus → BatchStatus → String
cannot_move old new =
    "Cannot move from '" +++ (status_value old +++ ("' to '" +++ (status_value new +++ "'")))

module _ (env : Env) where
  unfoldable pub create_batch : Option BatchCreate → Option User → App Batch
  unfolding BatchRepo.create AuditRepo.create
  create_batch given actor = do
    let form = or_default given
    batch ← begin (do
      batch ← BatchRepo.create env form
      AuditRepo.create env (actor_id actor) "batch_created" (batch_target batch.id)
          (("file_count", num form.file_count) ∷ [])
      pure batch)
    Cache.delete batches_list_key
    pure batch

  unfoldable pub transition : String → BatchStatus → List BatchStatus → App Batch
  unfolding BatchRepo.get_by_id BatchRepo.update_status AuditRepo.create
  transition batch_id new_status allowed = do
    updated ← begin (do
      found ← BatchRepo.get_by_id batch_id
      batch ← or_not_found "Batch not found" found
      raise_if (not (status_in batch.status allowed))
          (invalid_state_transition (cannot_move batch.status new_status))
      changed ← BatchRepo.update_status env batch_id new_status
      updated ← or_not_found "Batch not found after update" changed
      AuditRepo.create env none "batch_state_change" (batch_target batch_id)
          (("from", str (status_value batch.status)) ∷ ("to", str (status_value new_status)) ∷ [])
      pure updated)
    Cache.delete (batch_key batch_id)
    Cache.delete batches_list_key
    pure updated

  unfoldable pub mark_processing : String → App Batch
  unfolding transition
  mark_processing batch_id = transition batch_id processing (pending ∷ [])

  unfoldable pub mark_done : String → App Batch
  unfolding transition
  mark_done batch_id = transition batch_id done (processing ∷ [])

  unfoldable pub mark_failed : String → App Batch
  unfolding transition
  mark_failed batch_id = transition batch_id failed (pending ∷ processing ∷ [])

unfoldable pub get_batch : String → App Batch
unfolding BatchRepo.get_by_id
get_batch batch_id =
    begin (do batch ← BatchRepo.get_by_id batch_id; or_not_found "Batch not found" batch)

module _ (order : OrderBy {A = BatchRow} (λ b. b.created_at)) where
  unfoldable pub list_batches : ℕ → ℕ → App (List Batch)
  unfolding BatchRepo.list
  list_batches skip limit = begin (BatchRepo.list order limit skip)
