-- ===== src/Witnesses/Batches.antt =====
-- The properties of app/services/batch_service.py and of the audit log at concrete inputs.
use project_6_document_class.Base.{
  ◌≡◌, refl, String, false, List, [], ◌∷◌, none, select, exists, inr,
}
use project_6_document_class.Domain.{BatchStatus, pending, processing, failed}
use project_6_document_class.Db.{BatchRow}
use project_6_document_class.App.{World, ok}
use project_6_document_class.Repo.BatchRepo
use project_6_document_class.Repo.AuditRepo
use project_6_document_class.BatchService.Transitions.{moved}
use project_6_document_class.BatchService.Machine
use project_6_document_class.BatchService.Machine.{
  Reach, Step, Mark, mark, run_marks, to_processing, to_done, to_failed,
}
use project_6_document_class.AuditTrail.{calls, create, move}
use project_6_document_class.AuditTrail.Replay.{IsLogged, calls-IsLogged}
use project_6_document_class.Witnesses.{tally, env, batch_row, office, empty_world, found_b}

empty-IsLogged : IsLogged empty_world.db
unfolding select
empty-IsLogged id x h = cc

calls-IsLogged_example :
    IsLogged
      (calls env
        (create 2 none ∷ move to_processing "" ∷ move to_processing "" ∷ [])
        empty_world).db
calls-IsLogged_example =
    calls-IsLogged env (create 2 none ∷ move to_processing "" ∷ move to_processing "" ∷ [])
      empty_world empty-IsLogged

abbrev marks : List (Mark × String)
marks = (to_done, "b") ∷ (to_failed, "b") ∷ (to_processing, "b") ∷ []

run_marks-Reach_example :
    (y : BatchRow) × (select (BatchRepo.has_id "b") (run_marks env marks office).db.batches
      ≡ y ∷ [])
    × Reach pending y.status
run_marks-Reach_example =
    Machine.run_marks-Reach env marks office "b" (batch_row "b" pending) found_b

abbrev failed_office : World
failed_office = record office { db = record office.db { batches = batch_row "b" failed ∷ [] } }

failed_b : select (BatchRepo.has_id "b") failed_office.db.batches ≡ batch_row "b" failed ∷ []
unfolding select
failed_b = refl

run_marks_terminal_example :
    (y : BatchRow) × (select (BatchRepo.has_id "b") (run_marks env marks failed_office).db.batches
      ≡ y ∷ [])
    × (y.status ≡ failed)
run_marks_terminal_example =
    Machine.run_marks_terminal env marks failed_office "b" (batch_row "b" failed) failed_b
      (inr refl)

empty_log : exists (AuditRepo.has_id (tally 1)) office.db.audit_logs ≡ false
unfolding exists
empty_log = refl

marked :
    (mark env to_processing "b" office).0
    ≡ ok (record { id = "b"; status = processing; file_count = 2; created_at = 0 })
marked =
    Machine.mark_enabled env to_processing "b" office (batch_row "b" pending) found_b Step.start
      empty_log

mark_step_example :
    (x : BatchRow) × (select (BatchRepo.has_id "b") office.db.batches ≡ x ∷ [])
    × Step x.status processing
    × ((mark env to_processing "b" office).1.db ≡ moved env office "b" x.status processing)
    × (◌≡◌ {A = BatchStatus} processing processing)
mark_step_example = Machine.mark_step env to_processing "b" office marked
