-- ===== src/PredictionService/Saves.antt =====
-- What `save_prediction` writes.
use project_6_document_class.Base.{
  ◌+◌, ◌≡◌, true, false, String, [], ◌∷◌, ◌++◌, arith, exists, none,
}
use project_6_document_class.Domain.{Prediction, PredictionCreate}
use project_6_document_class.App.{Env, World, Error, ok, err}
use project_6_document_class.Cache.{predictions_recent_key, batch_key, predictions_batch_key}
use project_6_document_class.Repo.PredictionRepo
use project_6_document_class.Repo.BatchRepo
use project_6_document_class.PredictionService.{save_prediction}

module _ (env : Env) (batch_id : String) (form : PredictionCreate) (w : World) where
  abbrev pub saved : Prediction
  saved = record {
    id = env.uuid4 (w.draws + 1);
    batch_id = batch_id;
    filename = form.filename;
    blob_key = form.blob_key;
    overlay_key = form.overlay_key;
    predicted_class = form.predicted_class;
    confidence = form.confidence;
    relabeled_class = none;
    created_at = env.now w.draws;
  }

  abbrev pub saved_world : World
  saved_world = record {
    db = record w.db { predictions = w.db.predictions ++ saved ∷ [] };
    deleted =
        ((w.deleted ++ predictions_recent_key ∷ []) ++ batch_key batch_id ∷ [])
        ++ predictions_batch_key batch_id ∷ [];
    draws = w.draws + 1 + 1;
  }

  pub save_prediction_enabled :
      exists (BatchRepo.has_id batch_id) w.db.batches ≡ true
      → exists (PredictionRepo.has_id (env.uuid4 (w.draws + 1))) w.db.predictions ≡ false
      → save_prediction env batch_id form w ≡ (ok saved, saved_world)
  unfolding save_prediction
  save_prediction_enabled known fresh = ground arith

  pub save_prediction_error :
      {e : Error}
      → (save_prediction env batch_id form w).0 ≡ err e
      → let w' = (save_prediction env batch_id form w).1 in
        (w'.db ≡ w.db) × (w'.deleted ≡ w.deleted)
  unfolding save_prediction
  save_prediction_error h = ground arith
