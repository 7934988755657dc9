-- ===== src/Witnesses/Predictions.antt =====
-- The properties of app/services/prediction_service.py and of the worker at concrete inputs.
use Prim.Native.String.{◌∷◌ as ◌:::◌}
use Prim.Native.Char.{code}
use text.Mathlib.TextLemmas.{head-eq_of_cons-eq}
use project_6_document_class.Base.{true}
use project_6_document_class.FileName.{split_slash}
use project_6_document_class.Watcher
use project_6_document_class.Blob.{original_key, Bytes, Bucket, download, get_object}
use project_6_document_class.BatchService.{mark_processing, mark_done}
use project_6_document_class.PredictionService.{save_prediction}
use project_6_document_class.Worker.Classify.{
  Network, Answer, classified, answer_of, job_of, classify, classify_ok, filename_of,
  filename_of-original_key,
}
use project_6_document_class.Base.{
  ℕ, zero, suc, ◌≡◌, refl, ap, String, false, ◌==◌, eq_iff, [], ◌∷◌, ◌++◌, some, All, select,
  update, exists, arith,
}
use project_6_document_class.Domain.{
  pending, done, Prediction, PredictionRelabel, must_be_valid_class, text_in,
}
use project_6_document_class.Db.{BatchRow}
use project_6_document_class.App.{World, ok}
use project_6_document_class.App.Fresh.{IsFresh}
use project_6_document_class.Repo.BatchRepo
use project_6_document_class.Repo.PredictionRepo
use project_6_document_class.Cache.{predictions_recent_key, batch_key, predictions_batch_key}
use project_6_document_class.PredictionService.{relabel}
use project_6_document_class.PredictionService.Relabels
use project_6_document_class.Worker.{Job, Deletions, answered, persist_async}
use project_6_document_class.Worker.Persist.{persist_async_lem}
use project_6_document_class.Witnesses.{
  tally, env, tally_inj, batch_row, half, prediction, office, found_b, rae,
}

abbrev to_memo : PredictionRelabel
to_memo = record { relabeled_class = "memo" }

relabel_runs :
    (relabel env "p" to_memo rae office).0 ≡ ok (PredictionRepo.with_class "memo" prediction)
unfolding relabel select update exists
relabel_runs = refl

relabel_ok_example :
    let w' = (relabel env "p" to_memo rae office).1 in
    (x : Prediction) × (select (PredictionRepo.has_id "p") office.db.predictions ≡ x ∷ [])
    × Relabels.MayRelabel rae x
    × (PredictionRepo.with_class "memo" prediction ≡ PredictionRepo.with_class "memo" x)
    × (w'.db.predictions
        ≡ update
            (PredictionRepo.has_id "p")
            (PredictionRepo.with_class "memo")
            office.db.predictions)
    × (w'.deleted
        ≡ (([] ++ predictions_recent_key ∷ []) ++ batch_key x.batch_id ∷ [])
          ++ predictions_batch_key x.batch_id ∷ [])
relabel_ok_example = Relabels.relabel_ok env "p" to_memo rae office relabel_runs

memo_valid : must_be_valid_class "memo" ≡ some to_memo
unfolding must_be_valid_class text_in
memo_valid = refl

office-IsLabelled : All Relabels.IsLabelled office.db.predictions
office-IsLabelled = ((λ c h. cc), tt)

-- A state whose tables hold no id that the environment will draw.
abbrev ready : World
ready = record office { db = record office.db { users = []; predictions = [] } }

b-ne-tally : (n : ℕ) → ("b" == tally n) ≡ false
unfolding tally
b-ne-tally zero = refl
b-ne-tally (suc n) = ground (
  arith,
  eq_iff "b" ("x" ::: tally n),
  λ (e : ◌≡◌ {A = String} "b" ("x" ::: tally n)).
      absurd {A = ⊥} (omega (arith, ap code (head-eq_of_cons-eq {xs = ""} e))),
)

ready-IsFresh : IsFresh env ready
unfolding exists
ready-IsFresh = record {
  uuid4_inj = tally_inj;
  users = λ n h. refl;
  batches = λ n h. rw (b-ne-tally n);
  predictions = λ n h. refl;
  audit_logs = λ n h. refl;
}

abbrev job : Job
job = record {
  batch_id = "b";
  blob_key = "k";
  overlay_key = "o";
  filename = "f.tif";
  label = "memo";
  confidence = half;
}

-- The batch has two files, and is done after the job of one.
persist_async_lem_example :
    let (r, w') = persist_async env answered job ready in
    (r ≡ ok tt)
    × ((y : BatchRow) × (select (BatchRepo.has_id "b") w'.db.batches ≡ y ∷ [])
        × (y.status ≡ done)
        × (y.file_count ≡ 2))
    × ((p : Prediction) × (w'.db.predictions ≡ [] ++ p ∷ [])
        × (p.batch_id ≡ "b")
        × (p.filename ≡ "f.tif")
        × (p.predicted_class ≡ "memo")
        × (p.confidence ≡ half))
persist_async_lem_example =
    persist_async_lem env job ready (batch_row "b" pending) found_b ready-IsFresh

-- Redis raises at the first deletion.
abbrev unanswered : Deletions
unanswered = record answered { at_start = some 0 }

abbrev network : Network
network = record {
  predict = λ content. some ("memo", half);
  draw_overlay = λ content label confidence. some (1 ∷ []);
}

abbrev queued : Watcher.Job
queued = record { batch_id = "b"; blob_key = "k/f.tif"; request_id = "r" }

abbrev bucket : Bucket
bucket = ("k/f.tif", 7 ∷ []) ∷ []

abbrev answer : Answer
answer =
    answer_of env network true true answered queued
      (job_of env network true true answered queued "memo" half)

classify_runs : (classify env network true true answered queued bucket ready).0 ≡ classified answer
unfolding classify persist_async mark_processing mark_done save_prediction tally exists select
    update download
classify_runs = refl

classify_ok_example :
    let (_, bucket', w') = classify env network true true answered queued bucket ready in
    (content : Bytes) × (overlay : Bytes) × (download true "k/f.tif" bucket ≡ some content)
    × (network.predict content ≡ some ("memo", half))
    × (network.draw_overlay content "memo" half ≡ some overlay)
    × (answer
        ≡ answer_of env network true true answered queued
            (job_of env network true true answered queued "memo" half))
    × (get_object answer.overlay_key bucket' ≡ some overlay)
    × (persist_async env answered (job_of env network true true answered queued "memo" half) ready
        ≡ (ok tt, w'))
classify_ok_example = classify_ok env network true true answered queued bucket ready classify_runs

plain_scan : split_slash "f.tif" ≡ "f.tif" ∷ []
unfolding split_slash
plain_scan = refl

filename_of-original_key_example : filename_of (original_key "b" "f.tif") ≡ "f.tif"
filename_of-original_key_example = filename_of-original_key "b" "f.tif" plain_scan
