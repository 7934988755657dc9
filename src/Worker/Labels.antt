-- ===== src/Worker/Labels.antt =====
-- The labels that the jobs save, whatever fails in them.
use project_6_document_class.Base.{
  ℕ, ◌≡◌, refl, String, Bool, true, List, [], ◌∷◌, Option, none, some, All, All-append, arith, ◌⊎◌,
  inl, inr, Option-cases,
}
use project_6_document_class.Domain.{
  BatchStatus, Prediction, PredictionCreate, classes, text_in, pending, processing, done,
}
use project_6_document_class.Domain.Ieee.{Double}
use project_6_document_class.App.{Env, World, App, Result, ok, err, ◌>>=◌, ◌>>◌}
use project_6_document_class.Blob.{Bytes, Bucket, download}
use project_6_document_class.BatchService.{transition, mark_processing, mark_done}
use project_6_document_class.Cache.{under_redis}
use project_6_document_class.PredictionService.{save_prediction}
use project_6_document_class.PredictionService.Saves.{saved}
use project_6_document_class.Watcher
use project_6_document_class.Worker.{Job, Deletions, to_create, attempt, persist_async}
use project_6_document_class.Worker.Classify.{Network, on_overlay, classify, job_of}

-- The label of a prediction is a class.
abbrev pub IsClass : Prediction → Type 0
IsClass p = text_in p.predicted_class classes ≡ true

abbrev pub AreClasses : World → Type 0
AreClasses w = All IsClass w.db.predictions

-- A network that names classes only.
abbrev pub NamesClasses : Network → Type 0
NamesClasses network =
    (content : Bytes) (label : String) (confidence : Double)
    → network.predict content ≡ some (label, confidence)
    → text_in label classes ≡ true

-- A computation that leaves only such predictions where it finds only such.
abbrev Keeps : {A : Type 0} → App A → Type 0
Keeps m = (w : World) → AreClasses w → AreClasses (m w).1

Keeps-bind :
    {A B : Type 0} (m : App A) (k : A → App B) → Keeps m → ((a : A) → Keeps (k a)) → Keeps (m >>= k)
Keeps-bind {A = A} {B = B} m k first next w all = go (m w) (first w all)
  where
    go :
        (r : Result A × World)
        → AreClasses r.1
        → AreClasses
            (elim r.0 as (λ _. Result B × World) [ ok a ↦ k a r.1 | err e ↦ (err e, r.1) ]).1
    go (ok a, w') kept = next a w' kept
    go (err e, w') kept = kept

Keeps-attempt : {A : Type 0} (m : App A) → Keeps m → Keeps (attempt m)
Keeps-attempt m keeps w all =
    let same : (attempt m w).1.db.predictions ≡ (m w).1.db.predictions = ground arith in
    rw same (keeps w all)

Keeps-under_redis :
    {A : Type 0} (answers : Option ℕ) (m : App A) → Keeps m → Keeps (under_redis answers m)
unfolding under_redis
Keeps-under_redis none m keeps w all = keeps w all
Keeps-under_redis (some n) m keeps w all =
    let same : (under_redis (some n) m w).1.db.predictions ≡ (m w).1.db.predictions =
      ground arith in
    rw same (keeps w all)

module _ (env : Env) where
  Keeps-transition :
      (id : String) (new : BatchStatus) (allowed : List BatchStatus)
      → Keeps (transition env id new allowed)
  unfolding transition
  Keeps-transition id new allowed w all =
      let same : (transition env id new allowed w).1.db.predictions ≡ w.db.predictions =
        ground arith in
      rw same all

  Keeps-save_prediction :
      (id : String) (form : PredictionCreate)
      → text_in form.predicted_class classes ≡ true
      → Keeps (save_prediction env id form)
  unfolding save_prediction
  Keeps-save_prediction id form label w all =
      ground (arith, All-append IsClass w.db.predictions (saved env id form w ∷ []) all (label, tt))

  Keeps-persist_async :
      (redis : Deletions) (job : Job)
      → text_in job.label classes ≡ true
      → Keeps (persist_async env redis job)
  unfolding persist_async mark_processing mark_done
  Keeps-persist_async redis job label =
      let start = under_redis redis.at_start (mark_processing env job.batch_id) in
      let save = under_redis redis.at_save (save_prediction env job.batch_id (to_create job)) in
      let finish = under_redis redis.at_end (mark_done env job.batch_id) in
      Keeps-bind (attempt start) (λ _. save >> attempt finish)
        (Keeps-attempt start (
          Keeps-under_redis redis.at_start _
            (Keeps-transition job.batch_id processing (pending ∷ []))))
        (λ _.
          Keeps-bind save (λ _. attempt finish)
            (Keeps-under_redis redis.at_save _
              (Keeps-save_prediction job.batch_id (to_create job) label))
            (λ _. Keeps-attempt finish (
              Keeps-under_redis redis.at_end _
                (Keeps-transition job.batch_id done (processing ∷ [])))))

  on_overlay-world :
      (network : Network) (get_ok put_ok : Bool) (redis : Deletions) (j : Watcher.Job) (job : Job)
      (o : Option Bytes) (bucket : Bucket) (w : World)
      → ((on_overlay env network get_ok put_ok redis j job o bucket w).2 ≡ w)
        ⊎ ((on_overlay env network get_ok put_ok redis j job o bucket w).2
            ≡ (persist_async env redis job w).1)
  unfolding on_overlay
  on_overlay-world network get_ok put_ok redis j job none bucket w = inl refl
  on_overlay-world network get_ok put_ok redis j job (some overlay) bucket w = ground arith

  pub classify-AreClasses :
      (network : Network) (get_ok put_ok : Bool) (redis : Deletions) (j : Watcher.Job)
      (bucket : Bucket) (w : World)
      → NamesClasses network
      → AreClasses w
      → AreClasses (classify env network get_ok put_ok redis j bucket w).2
  unfolding classify
  classify-AreClasses network get_ok put_ok redis j bucket w names all =
      elim (Option-cases (download get_ok j.blob_key bucket)) [
        | inl e ↦ rw e all
        | inr (content, e) ↦ elim (Option-cases (network.predict content)) [
          | inl p ↦ rw (e, p) all
          | inr ((label, confidence), p) ↦
              let job = job_of env network get_ok put_ok redis j label confidence in
              let kept = Keeps-persist_async redis job (names content label confidence p) w all in
              elim (on_overlay-world network get_ok put_ok redis j job
                (network.draw_overlay content label confidence) bucket w) [
                  | inl same ↦ rw (e, p) (rw same all)
                  | inr same ↦ rw (e, p) (rw same kept)
                ]
        ]
      ]
