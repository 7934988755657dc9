-- ===== src/Repo/PredictionRepo.antt =====
-- app/repositories/prediction_repo.py.
use project_6_document_class.Base.{
  ℕ, String, Bool, true, false, not, ◌==◌, ◌&&◌, List, [], ◌∷◌, ◌++◌, Option, none, some, map, take,
  drop, select, update, exists,
}
use project_6_document_class.Domain.{Prediction, PredictionCreate, PredictionRelabel}
use project_6_document_class.App.{
  Env, App, integrity_error, pure, gets, modify, draw, raise_if, ◌>>=◌, ◌>>◌, scalar_one_or_none,
}
use project_6_document_class.Repo.BatchRepo
use project_6_document_class.Repo.OrderBy.{OrderBy}

-- `PredictionORM.id == prediction_id`.
abbrev pub has_id : String → Prediction → Bool
has_id prediction_id p = p.id == prediction_id

abbrev pub of_batch : String → Prediction → Bool
of_batch batch_id p = p.batch_id == batch_id

abbrev pub with_class : String → Prediction → Prediction
with_class cls p = record p { relabeled_class = some cls }

-- The INSERT of a row, under the primary key of the table and the foreign key `batch_id`.
unfoldable pub add_prediction : Prediction → App Unit
add_prediction row = do
  predictions ← gets (λ w. w.db.predictions)
  raise_if (exists (has_id row.id) predictions) integrity_error
  batches ← gets (λ w. w.db.batches)
  raise_if (not (exists (BatchRepo.has_id row.batch_id) batches)) integrity_error
  modify (λ db. record db { predictions = db.predictions ++ row ∷ [] })

module _ (env : Env) where
  unfoldable pub create : String → PredictionCreate → App Prediction
  unfolding add_prediction
  create batch_id pred_create = do
    now ← draw env.now
    id ← draw env.uuid4
    let pred_orm : Prediction = record {
      id = id;
      batch_id = batch_id;
      filename = pred_create.filename;
      blob_key = pred_create.blob_key;
      overlay_key = pred_create.overlay_key;
      predicted_class = pred_create.predicted_class;
      confidence = pred_create.confidence;
      relabeled_class = none;
      created_at = now;
    }
    add_prediction pred_orm
    pure pred_orm

unfoldable pub get_by_id : String → App (Option Prediction)
get_by_id prediction_id = do
  predictions ← gets (λ w. w.db.predictions)
  scalar_one_or_none (select (has_id prediction_id) predictions)

unfoldable pub get_by_batch_and_filename : String → String → App (Option Prediction)
get_by_batch_and_filename batch_id filename = do
  predictions ← gets (λ w. w.db.predictions)
  scalar_one_or_none (select (λ p. of_batch batch_id p && p.filename == filename) predictions)

unfoldable pub relabel : String → PredictionRelabel → App (Option Prediction)
relabel prediction_id relabel_model = do
  let set_class = with_class relabel_model.relabeled_class
  predictions ← gets (λ w. w.db.predictions)
  modify (λ db. record db { predictions = update (has_id prediction_id) set_class db.predictions })
  scalar_one_or_none (map set_class (select (has_id prediction_id) predictions))

module _ (order : OrderBy {A = Prediction} (λ p. p.created_at)) where
  unfoldable pub get_by_batch_id : String → App (List Prediction)
  get_by_batch_id batch_id = gets (λ w. order.desc (select (of_batch batch_id) w.db.predictions))

  unfoldable pub get_recent : ℕ → App (List Prediction)
  get_recent limit = gets (λ w. take limit (order.desc w.db.predictions))

  unfoldable pub list_by_predicted_class : String → ℕ → ℕ → App (List Prediction)
  list_by_predicted_class cls limit offset = gets (λ w.
      take limit
        (drop offset (order.desc (select (λ p. p.predicted_class == cls) w.db.predictions))))

  unfoldable pub list_unrelabeled : ℕ → ℕ → App (List Prediction)
  list_unrelabeled limit offset = gets (λ w. take limit (
      drop offset (
        order.desc (
          select (λ p. elim p.relabeled_class [ none ↦ true | some _ ↦ false ]) w.db.predictions))))
