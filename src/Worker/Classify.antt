-- ===== src/Worker/Classify.antt =====
-- `classify` of app/workers/inference_worker.py. The network and the drawing of the overlay are
-- arguments; `none` is an exception of theirs. The log lines are left out, and the two singletons are
-- in Worker/Process.
use project_6_document_class.Base.{
  String, ◌≡◌, Bool, ◌∷◌, Option, none, some, arith, Option-cases, refl, inl, inr,
}
use Prim.Native.String.{◌++◌ as ◌+++◌}
use text.Mathlib.TextLemmas.{append_assoc}
use project_6_document_class.Base.{eq_refl, [], ap}
use project_6_document_class.FileName.Slashes.{last_part-append}
use project_6_document_class.Domain.Ieee.{Double}
use project_6_document_class.App.{Env, World, Error, Result, ok, err}
use project_6_document_class.App.Laws.{Result-cases}
use project_6_document_class.FileName.{split_slash, last_or}
use project_6_document_class.Blob.{
  Bytes, Bucket, stored, too_large, unreachable, original_key, overlay_key, get_object, upload,
  download,
}
use project_6_document_class.Watcher
use project_6_document_class.Worker.{Job, Deletions, persist_async}

pub record Network : Type 0 where
  pub predict : Bytes → Option (String × Double)
  pub draw_overlay : Bytes → String → Double → Option Bytes

-- The dictionary that RQ keeps.
pub record Answer : Type 0 where
  pub label : String
  pub confidence : Double
  pub batch_id : String
  pub blob_key : String
  pub overlay_key : String

pub data Outcome : Type 0 where
  classified : Answer → Outcome
  download_failed predict_failed overlay_failed upload_failed : Outcome
  persist_failed : Error → Outcome

-- `blob_key.rsplit("/", 1)[-1]`
unfoldable pub filename_of : String → String
filename_of key = last_or "" (split_slash key)

original_key-parts :
    (b f : String) → original_key b f ≡ ("batches/" +++ (b +++ "/original")) +++ ("/" +++ f)
unfolding original_key
original_key-parts b f =
    rw
      (
        append_assoc "batches/" (b +++ "/original/") f,
        append_assoc b "/original/" f,
        append_assoc "batches/" (b +++ "/original") ("/" +++ f),
        append_assoc b "/original" ("/" +++ f),
      )
      (ap (λ t. "batches/" +++ (b +++ t)) (append_assoc "/original" "/" f))

-- If a file name has no slash, the name that the worker reads off the key of the stored document
-- is that file name.
pub filename_of-original_key :
    (b f : String) → split_slash f ≡ f ∷ [] → filename_of (original_key b f) ≡ f
unfolding filename_of
filename_of-original_key b f plain =
    rw (original_key-parts b f) (last_part-append ("batches/" +++ (b +++ "/original")) f plain)

module _ (env : Env) (network : Network) (get_ok put_ok : Bool) (redis : Deletions)
    (j : Watcher.Job) where
  abbrev pub job_of : String → Double → Job
  job_of label confidence = record {
    batch_id = j.batch_id;
    blob_key = j.blob_key;
    overlay_key = overlay_key j.batch_id (filename_of j.blob_key);
    filename = filename_of j.blob_key;
    label = label;
    confidence = confidence;
  }

  abbrev pub answer_of : Job → Answer
  answer_of job = record {
    label = job.label;
    confidence = job.confidence;
    batch_id = job.batch_id;
    blob_key = job.blob_key;
    overlay_key = job.overlay_key;
  }

  abbrev on_persisted : Job → Bucket → Result (Unit {0}) × World → Outcome × Bucket × World
  on_persisted job bucket (ok _, w) = (classified (answer_of job), bucket, w)
  on_persisted job bucket (err e, w) = (persist_failed e, bucket, w)

  unfoldable pub on_overlay : Job → Option Bytes → Bucket → World → Outcome × Bucket × World
  unfolding upload
  on_overlay job none bucket w = (overlay_failed, bucket, w)
  on_overlay job (some overlay) bucket w =
      let (result, bucket') = upload put_ok job.overlay_key overlay bucket in
      elim result [
        | stored ↦ on_persisted job bucket' (persist_async env redis job w)
        | too_large ↦ (upload_failed, bucket', w)
        | unreachable ↦ (upload_failed, bucket', w)
      ]

  unfoldable pub on_prediction :
      Bytes → Option (String × Double) → Bucket → World → Outcome × Bucket × World
  unfolding on_overlay
  on_prediction content none bucket w = (predict_failed, bucket, w)
  on_prediction content (some (label, confidence)) bucket w =
      on_overlay (job_of label confidence) (network.draw_overlay content label confidence) bucket w

  unfoldable pub on_download : Option Bytes → Bucket → World → Outcome × Bucket × World
  unfolding on_prediction
  on_download none bucket w = (download_failed, bucket, w)
  on_download (some content) bucket w = on_prediction content (network.predict content) bucket w

  unfoldable pub classify : Bucket → World → Outcome × Bucket × World
  unfolding on_download
  classify bucket w = on_download (download get_ok j.blob_key bucket) bucket w

  on_overlay_lem :
      (job : Job) (o : Option Bytes) (bucket : Bucket) (w : World) {a : Answer}
      → (on_overlay job o bucket w).0 ≡ classified a
      → (overlay : Bytes) × (o ≡ some overlay)
        × (a ≡ answer_of job)
        × (get_object job.overlay_key (on_overlay job o bucket w).1 ≡ some overlay)
        × (persist_async env redis job w ≡ (ok tt, (on_overlay job o bucket w).2))
  unfolding on_overlay get_object
  on_overlay_lem job none bucket w h = absurd (ground arith)
  on_overlay_lem job (some overlay) bucket w h =
      elim (Result-cases (persist_async env redis job w).0) [
        | inl (u, e) ↦ (
          overlay,
          refl,
          ground (arith, e),
          ground (arith, e, eq_refl job.overlay_key),
          ground (arith, e),
        )
        | inr (x, e) ↦ absurd (ground (arith, e))
      ]

  -- If a job returns a result, then the document was downloaded, the result has the label and the
  -- confidence that the network gives for its bytes, the overlay that is drawn from them is in
  -- the bucket under the result's overlay key, and the persistence step returned and left the
  -- database that the job leaves.
  pub classify_ok :
      (bucket : Bucket) (w : World) {a : Answer}
      → (classify bucket w).0 ≡ classified a
      → let (_, bucket', w') = classify bucket w in
        (content : Bytes) × (overlay : Bytes) × (download get_ok j.blob_key bucket ≡ some content)
        × (network.predict content ≡ some (a.label, a.confidence))
        × (network.draw_overlay content a.label a.confidence ≡ some overlay)
        × (a ≡ answer_of (job_of a.label a.confidence))
        × (get_object a.overlay_key bucket' ≡ some overlay)
        × (persist_async env redis (job_of a.label a.confidence) w ≡ (ok tt, w'))
  unfolding classify
  classify_ok bucket w {a} h = elim (Option-cases (download get_ok j.blob_key bucket)) [
    | inl e ↦ absurd (ground (arith, e))
    | inr (content, e) ↦ elim (Option-cases (network.predict content)) [
      | inl p ↦ absurd (ground (arith, e, p))
      | inr ((label, confidence), p) ↦
          let job = job_of label confidence in
          let o = network.draw_overlay content label confidence in
          let lem = on_overlay_lem job o bucket w {a = a} (rw (e, p) at h) in
          (
            content,
            lem.0,
            e,
            rw lem.2 p,
            rw lem.2 lem.1,
            rw lem.2 refl,
            rw (lem.2, e, p) lem.3,
            rw (lem.2, e, p) lem.4,
          )
    ]
  ]
