-- ===== src/Pipeline/Delivery.antt =====
-- What the workers make of the files of an upload, while the services answer.
use mathlib.Core.List.{append-nil, append_assoc}
use project_6_document_class.Base.{
  ◌≤◌, ◌≡◌, refl, sym, ap, ◌∙◌, String, true, List, [], ◌∷◌, ◌++◌, some, map, length, arith, All,
  select, eq_iff,
}
use project_6_document_class.Domain.{BatchStatus, Prediction}
use project_6_document_class.Domain.Ieee.{Double}
use project_6_document_class.Db.{BatchRow}
use project_6_document_class.App.{Env}
use project_6_document_class.App.Fresh.{IsFresh}
use project_6_document_class.Repo.BatchRepo
use project_6_document_class.FileName.{split_slash}
use project_6_document_class.Blob.{
  Bytes, Bucket, max_file_bytes, get_object, original_key, overlay_key,
}
use project_6_document_class.Blob.Keys.{overlay_key-ne-original_key}
use project_6_document_class.Upload.{UploadFile, Site, name_or_empty}
use project_6_document_class.Upload.Outcomes.{job_of}
use project_6_document_class.Watcher.{Job}
use project_6_document_class.Worker.{answered}
use project_6_document_class.Worker.Persist.{after_job, persist_async_lem}
use project_6_document_class.Worker.Turn.{persist-IsFresh, classify_up}
use project_6_document_class.Worker.Classify.{
  Network, Outcome, classify, classified, filename_of, filename_of-original_key, answer_of,
}
use project_6_document_class.Worker.Classify
use project_6_document_class.Pipeline.Stored.{IsStored}
use project_6_document_class.Pipeline.{Turn, Dequeue, IsFifo, work, drain}

-- The network classifies the document of a file, and its overlay fits into the bucket.
abbrev pub IsAble : Network → UploadFile → Type 0
IsAble network f =
    (label : String) × (confidence : Double) × (overlay : Bytes) × (network.predict f.content
      ≡ some (label, confidence))
    × (network.draw_overlay f.content label confidence ≡ some overlay)
    × (length overlay ≤ max_file_bytes)

abbrev pub IsUp : Turn → Type 0
IsUp t = (t.get_ok ≡ true) × (t.put_ok ≡ true) × (t.redis ≡ answered)

-- A prediction for each file, in order: what the network gives for the file's own content.
abbrev pub Matches : Network → String → List UploadFile → List Prediction → Type 0
Matches network b [] [] = Unit
Matches network b (f ∷ fs) (p ∷ ps) =
    ((p.batch_id ≡ b)
      × (p.filename ≡ name_or_empty f.filename)
      × (network.predict f.content ≡ some (p.predicted_class, p.confidence)))
    × Matches network b fs ps
Matches network b _ _ = ⊥

abbrev pub IsPlain : UploadFile → Type 0
IsPlain f = split_slash (name_or_empty f.filename) ≡ name_or_empty f.filename ∷ []

abbrev pub status_after : List UploadFile → BatchStatus → BatchStatus
status_after [] s = s
status_after (f ∷ fs) s = status_after fs (after_job s)

module _ (env : Env) (network : Network) (dequeue : Dequeue) (fifo : IsFifo dequeue)
    (b r : String) where
  IsStored-overlay :
      (g : String) (overlay : Bytes) (bucket : Bucket) (fs : List UploadFile)
      → All (IsStored b r bucket) fs
      → All (IsStored b r ((overlay_key b g, overlay) ∷ bucket)) fs
  unfolding get_object
  IsStored-overlay g overlay bucket [] a = tt
  IsStored-overlay g overlay bucket (f ∷ fs) a =
      let key = original_key b (name_or_empty f.filename) in
      (
        ground (
          arith,
          a.0,
          eq_iff (overlay_key b g) key,
          overlay_key-ne-original_key b g (name_or_empty f.filename),
        ),
        IsStored-overlay g overlay bucket fs a.1,
      )

  -- What one job does for one file.
  delivered_one :
      (t : Turn) (f : UploadFile) (js : List Job) (s : Site) (x : BatchRow)
      → IsUp t
      → IsAble network f
      → IsStored b r s.bucket f
      → IsPlain f
      → select (BatchRepo.has_id b) s.world.db.batches ≡ x ∷ []
      → IsFresh env s.world
      → let (os, s') = work env network dequeue t s (some (job_of b r f, js)) in
        (s'.queue ≡ js)
        × ((g : String) × (overlay : Bytes) × (s'.bucket ≡ (overlay_key b g, overlay) ∷ s.bucket))
        × ((p : Prediction) × (s'.world.db.predictions ≡ s.world.db.predictions ++ p ∷ [])
            × Matches network b (f ∷ []) (p ∷ []))
        × ((y : BatchRow) × (select (BatchRepo.has_id b) s'.world.db.batches ≡ y ∷ [])
            × (y.status ≡ after_job x.status)
            × (y.file_count ≡ x.file_count))
        × IsFresh env s'.world
  unfolding work
  delivered_one t f js s x up able stored plain found fresh =
      let name = name_or_empty f.filename in
      let j = job_of b r f in
      let (label, confidence, overlay, predicted, drawn, small) = able in
      let job = Classify.job_of env network true true answered j label confidence in
      let (returned, row, (p, added, in_batch, named, labelled, sure)) =
        persist_async_lem env job s.world x found fresh in
      let e =
        ap (λ g. classify env network g t.put_ok t.redis j s.bucket s.world) up.0
        ∙ ap (λ g. classify env network true g t.redis j s.bucket s.world) up.1
        ∙ ap (λ g. classify env network true true g j s.bucket s.world) up.2
        ∙ classify_up env network j s.bucket s.world f.content overlay label confidence stored
            predicted drawn small returned in
      let gives : network.predict f.content ≡ some (p.predicted_class, p.confidence) =
        predicted
        ∙ ap (λ l. some (l, confidence)) (sym labelled)
        ∙ ap (λ c. some (p.predicted_class, c)) (sym sure) in
      rw e (
        refl,
        (filename_of j.blob_key, overlay, refl),
        (p, added, ((in_batch, named ∙ filename_of-original_key b name plain, gives), tt)),
        row,
        persist-IsFresh env job s.world x found fresh,
      )

  -- What the jobs of some files do, in order.
  pub delivered :
      (ts : List Turn) (fs : List UploadFile) (s : Site) (x : BatchRow)
      → All IsUp ts
      → length fs ≤ length ts
      → All (IsAble network) fs
      → s.queue ≡ map (job_of b r) fs
      → All (IsStored b r s.bucket) fs
      → All IsPlain fs
      → select (BatchRepo.has_id b) s.world.db.batches ≡ x ∷ []
      → IsFresh env s.world
      → let s' = (drain env network dequeue ts s).1 in
        (s'.queue ≡ [])
        × ((ps : List Prediction) × (s'.world.db.predictions ≡ s.world.db.predictions ++ ps)
            × Matches network b fs ps)
        × ((y : BatchRow) × (select (BatchRepo.has_id b) s'.world.db.batches ≡ y ∷ [])
            × (y.status ≡ status_after fs x.status)
            × (y.file_count ≡ x.file_count))
  unfolding drain
  delivered [] [] s x up enough able waiting stored plain found fresh =
      (waiting, ([], sym (append-nil _), tt), (x, found, refl, refl))
  delivered [] (f ∷ fs) s x up enough able waiting stored plain found fresh = absurd (omega arith)
  delivered (t ∷ ts) [] s x up enough able waiting stored plain found fresh =
      let idle : work env network dequeue t s (dequeue s.queue) ≡ ([], s) =
        ap (λ q. work env network dequeue t s (dequeue q)) waiting
        ∙ ap (work env network dequeue t s) fifo.0
        ∙ (unfold work in refl) in
      rw idle (delivered ts [] s x up.1 (omega arith) tt waiting tt tt found fresh)
  delivered (t ∷ ts) (f ∷ fs) s x up enough able waiting stored plain found fresh =
      let js = map (job_of b r) fs in
      let s₁ = (work env network dequeue t s (some (job_of b r f, js))).1 in
      let (left, (g, overlay, bucket), (p, added, match), (y, row, moved, files), fresh') =
        delivered_one t f js s x up.0 able.0 stored.0 plain.0 found fresh in
      let (over, (ps, more, matches), (z, last, end, same)) =
        delivered ts fs s₁ y up.1 (omega arith) able.1 left
          (rw bucket (IsStored-overlay g overlay s.bucket fs stored.1)) plain.1 row fresh' in
      let taken : work env network dequeue t s (dequeue s.queue)
          ≡ work env network dequeue t s (some (job_of b r f, js)) =
        ap (λ q. work env network dequeue t s (dequeue q)) waiting
        ∙ ap (work env network dequeue t s) (fifo.1 (job_of b r f) js) in
      rw taken (
        over,
        (
          p ∷ ps,
          more
              ∙ ap (λ (rows : List Prediction). rows ++ ps) added
              ∙ append_assoc s.world.db.predictions (p ∷ []) ps,
          (match.0, matches),
        ),
        (z, last, end ∙ ap (status_after fs) moved, same ∙ files),
      )
