-- ===== src/PredictionService.antt =====
-- app/services/prediction_service.py and app/services/audit_service.py.
pub mod Relabels
pub mod Saves
use Prim.Native.String.{◌++◌ as ◌+++◌}
use project_6_document_class.Base.{
  ℕ, String, Bool, not, ◌&&◌, ◌||◌, List, [], ◌∷◌, Option, none, some,
}
use project_6_document_class.Domain.{
  User, admin, reviewer, role_eq, Prediction, PredictionCreate, PredictionRelabel, AuditLogEntry,
  str,
}
use project_6_document_class.Domain.Ieee.{Double, at_least}
use project_6_document_class.App.{
  Env, App, permission_denied, not_found, relabel_not_allowed, pure, raise, raise_if, begin, ◌>>=◌,
  ◌>>◌,
}
use project_6_document_class.Repo.PredictionRepo
use project_6_document_class.Repo.AuditRepo
use project_6_document_class.Repo.OrderBy.{OrderBy}
use project_6_document_class.Cache
use project_6_document_class.Cache.{predictions_recent_key, batch_key, predictions_batch_key}

-- The double that the literal 0.7 denotes.
abbrev pub relabel_limit : Double
relabel_limit = record { bits = 0x3FE6666666666666 }

abbrev or_not_found : {A : Type 0} → String → Option A → App A
or_not_found message none = raise (not_found message)
or_not_found message (some a) = pure a

-- `f"prediction:{id}"`, the target of an audit entry.
abbrev pub prediction_target : String → String
prediction_target prediction_id = "prediction:" +++ prediction_id

-- The three keys that a write of a prediction invalidates.
abbrev pub forget_batch : String → App Unit
forget_batch batch_id = do
  Cache.delete predictions_recent_key
  Cache.delete (batch_key batch_id)
  Cache.delete (predictions_batch_key batch_id)

module _ (env : Env) where
  unfoldable pub save_prediction : String → PredictionCreate → App Prediction
  unfolding PredictionRepo.create
  save_prediction batch_id form = do
    prediction ← begin (PredictionRepo.create env batch_id form)
    forget_batch batch_id
    pure prediction

  unfoldable pub relabel : String → PredictionRelabel → User → App Prediction
  unfolding PredictionRepo.get_by_id PredictionRepo.relabel AuditRepo.create
  relabel prediction_id update actor = do
    raise_if (not (role_eq actor.role admin || role_eq actor.role reviewer))
        (permission_denied "Only reviewers and admins can relabel")
    (pred, updated) ← begin (do
      found ← PredictionRepo.get_by_id prediction_id
      pred ← or_not_found "Prediction not found" found
      raise_if (role_eq actor.role reviewer && at_least relabel_limit pred.confidence)
          (relabel_not_allowed "Reviewers can only relabel predictions with confidence < 0.7")
      changed ← PredictionRepo.relabel prediction_id update
      updated ← or_not_found "Prediction not found during relabel" changed
      AuditRepo.create env (some actor.id) "relabel" (prediction_target prediction_id)
          (("from", str pred.predicted_class) ∷ ("to", str update.relabeled_class) ∷ [])
      pure (pred, updated))
    forget_batch pred.batch_id
    pure updated

unfoldable pub get_by_id : String → App Prediction
unfolding PredictionRepo.get_by_id
get_by_id prediction_id =
    begin
      (do pred ← PredictionRepo.get_by_id prediction_id; or_not_found "Prediction not found" pred)

module _ (order : OrderBy {A = Prediction} (λ p. p.created_at)) where
  unfoldable pub get_predictions_for_batch : String → App (List Prediction)
  unfolding PredictionRepo.get_by_batch_id
  get_predictions_for_batch batch_id = begin (PredictionRepo.get_by_batch_id order batch_id)

  unfoldable pub get_recent_predictions : ℕ → App (List Prediction)
  unfolding PredictionRepo.get_recent
  get_recent_predictions limit = begin (PredictionRepo.get_recent order limit)

-- `AuditService.list_recent`.
unfoldable pub list_recent :
    OrderBy {A = AuditLogEntry} (λ e. e.timestamp) → ℕ → App (List AuditLogEntry)
unfolding AuditRepo.list_recent
list_recent order limit = begin (AuditRepo.list_recent order limit)
