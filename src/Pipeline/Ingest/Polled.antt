-- ===== src/Pipeline/Ingest/Polled.antt =====
-- From a poll of the directory to the predictions of its files.
use project_6_document_class.Base.{
  Option, none, some, ℕ, ◌≤◌, ◌≡◌, inl, inr, refl, sym, ap, ◌∙◌, subst, String, List, [], ◌∷◌, ◌++◌,
  map, length, arith, All,
}
use project_6_document_class.Domain.{User, Batch}
use project_6_document_class.App.{App, Env, World, Result, ok}
use project_6_document_class.App.Fresh.{IsFresh}
use project_6_document_class.App.Laws.{Result-cases}
use project_6_document_class.Cache.{under_redis, under_redis-ok}
use project_6_document_class.BatchService.Created.{made, create_batch_ok, created_world}
use project_6_document_class.Upload.{Site}
use project_6_document_class.Upload.Outcomes.{job_of}
use project_6_document_class.Watcher.{Watcher, Poll, process_files, list_new_files, poll}
use project_6_document_class.Worker.{ingest_create_batch}
use project_6_document_class.Worker.Drawn.{drawn}
use project_6_document_class.Worker.Classify.{Network}
use project_6_document_class.Pipeline.{Turn, Dequeue, IsFifo, drain}
use project_6_document_class.Pipeline.Stored.{IsDistinct, IsStored}
use project_6_document_class.Pipeline.Delivery.{IsAble, IsUp, IsPlain}
use project_6_document_class.Pipeline.Batch.{Delivered, created-Delivered}
use project_6_document_class.Pipeline.Ingest.{ingest, view, id_of, with_batch}
use project_6_document_class.Pipeline.Ingest.Files.{document, IsGood, IsFree, files-IsPolled}

length-documents : (p : Poll) (fs : List String) → length (map (document p) fs) ≡ length fs
length-documents p [] = refl
length-documents p (f ∷ fs) = omega (arith, length-documents p fs)

no_more_drawn : (w : World) → w ≡ drawn 0 w
no_more_drawn w = ap (λ (d : ℕ). record w { draws = d }) (omega arith)

abbrev made_by : Env → ℕ → Option User → App Batch
made_by env n actor w = made env n actor w

-- What the callback has made, where it returns.
callback_ok :
    (env : Env) (redis : Option ℕ) (n : ℕ) (w : World) {b : String}
    → (ingest_create_batch env redis n w).0 ≡ ok b
    → (v : Batch) × ((made env n none w).0 ≡ ok v)
      × (v.id ≡ b)
      × ((ingest_create_batch env redis n w).1 ≡ (made env n none w).1)
unfolding ingest_create_batch
callback_ok env redis n w {b} h = elim (Result-cases (under_redis redis (made_by env n none) w).0) [
  | inr (x, e) ↦ absurd (ground (arith, e, h))
  | inl (v, e) ↦
      let same = under_redis-ok redis (made_by env n none) w e in
      let kept : (ingest_create_batch env redis n w).1
          ≡ (under_redis redis (made_by env n none) w).1 =
        ground (arith, e) in
      (
        v,
        ap (λ (r : Result Batch × World). r.0) (sym same) ∙ e,
        ground (arith, e, h),
        kept ∙ ap (λ (r : Result Batch × World). r.1) same,
      )
]

-- A poll whose batch is created processes its new files under it.
ingested :
    (env : Env) (redis : Option ℕ) (p : Poll) (seen : List String) (s : Site) (f : String)
    (fs : List String) {b : String}
    → list_new_files p.listing (view seen s) ≡ f ∷ fs
    → (ingest_create_batch env redis (length (f ∷ fs)) s.world).0 ≡ ok b
    → let w' = process_files (record p { batch = some b }) b (f ∷ fs) (view seen s) in
      (ingest env redis p seen s).1 ≡ record {
        world = (ingest_create_batch env redis (length (f ∷ fs)) s.world).1;
        bucket = w'.bucket;
        queue = w'.queue;
      }
ingested env redis p seen s f fs {b} new h =
    let made_batch = ingest_create_batch env redis (length (f ∷ fs)) s.world in
    let first : ingest env redis p seen s ≡ with_batch env p seen s made_batch =
      unfold ingest in ground (arith, new) in
    let polled : poll (record p { batch = some b }) (view seen s)
        ≡ process_files (record p { batch = some b }) b (f ∷ fs) (view seen s) =
      unfold poll in ground (arith, new) in
    ap (λ (x : List String × Site). x.1) first
    ∙ ap
        (λ (r : Result String).
          (let v = poll (record p { batch = id_of r }) (view seen s) in
            record { world = made_batch.1; bucket = v.bucket; queue = v.queue }))
        h
    ∙ ap (λ (v : Watcher). record { world = made_batch.1; bucket = v.bucket; queue = v.queue })
        polled

module _ (env : Env) (network : Network) (dequeue : Dequeue) (fifo : IsFifo dequeue)
    (redis : Option ℕ) (p : Poll) (seen : List String) (s : Site) where
  -- From a poll of the SFTP watcher to the predictions, under these conditions. RQ hands out jobs
  -- in the order of the queue, each once; MinIO answers the workers, and Redis their deletions;
  -- the network classifies the document of each file, and its overlay is drawn and within the
  -- size limit. Suppose that a poll finds new files with distinct names without a slash, that the
  -- callback returns the id of its batch while the queue is empty, the drawn ids are fresh and
  -- nothing is stored under the files' keys in that batch, that each file is loaded and passes
  -- the validation, that MinIO and Redis answer for it, and that the workers take at least as
  -- many turns as there are files. Then the queue is empty again, the table of predictions has
  -- exactly one more row for each file, in their order, with the batch, the file's name, and the
  -- label and the confidence that the network gives for that file's own content, and the batch is
  -- alone under its id, is done, and counts the files.
  pub ingest-Delivered :
      (f : String) (fs : List String) (ts : List Turn) {b : String}
      → list_new_files p.listing (view seen s) ≡ f ∷ fs
      → (ingest_create_batch env redis (length (f ∷ fs)) s.world).0 ≡ ok b
      → IsFresh env s.world
      → s.queue ≡ []
      → IsDistinct (f ∷ fs)
      → All (IsGood p) (f ∷ fs)
      → All (IsFree p b s.bucket) (f ∷ fs)
      → All (IsAble network) (map (document p) (f ∷ fs))
      → All IsPlain (map (document p) (f ∷ fs))
      → All IsUp ts
      → length (f ∷ fs) ≤ length ts
      → let s' = (drain env network dequeue ts (ingest env redis p seen s).1).1 in
        Delivered network (map (document p) (f ∷ fs)) s b s'
  ingest-Delivered f fs ts {b} new h fresh idle distinct good free able plain up enough =
      let files = map (document p) (f ∷ fs) in
      let n = length (f ∷ fs) in
      let (v, e, same, world) = callback_ok env redis n s.world h in
      let (_, _, after) = create_batch_ok env n none s.world e in
      let q : Poll = record p { batch = some b } in
      let w' = process_files q b (f ∷ fs) (view seen s) in
      let s₁ : Site = record {
        world = (ingest_create_batch env redis n s.world).1;
        bucket = w'.bucket;
        queue = w'.queue;
      } in
      let run : (ingest env redis p seen s).1 ≡ s₁ = ingested env redis p seen s f fs new h in
      let (queue, stored_all, _) = files-IsPolled q b (f ∷ fs) (view seen s) distinct good free in
      let count : length files ≡ n = length-documents p (f ∷ fs) in
      let at_start : s₁.world ≡ drawn 0 (created_world env (length files) none s.world) =
        world ∙ after ∙ ap (λ m. created_world env m none s.world) (sym count) ∙ no_more_drawn _ in
      let result : Delivered network files s b (drain env network dequeue ts s₁).1 =
        subst (λ i. Delivered network files s i (drain env network dequeue ts s₁).1) same
          (created-Delivered env network dequeue fifo files none s {v = v} p.request_id ts s₁
            (subst (λ m. (made env m none s.world).0 ≡ ok v) (sym count) e) (0, at_start)
            (subst (λ i. s₁.queue ≡ map (job_of i p.request_id) files) (sym same)
              (queue ∙ ap (λ q. q ++ map (job_of b p.request_id) files) idle))
            (subst (λ i. All (IsStored i p.request_id s₁.bucket) files) (sym same) stored_all) fresh
            (λ e. absurd (omega (arith, ap length e, count))) able plain up
            (subst (λ m. m ≤ length ts) (sym count) enough)) in
      subst (λ (x : Site). Delivered network files s b (drain env network dequeue ts x).1) (sym run)
        result
