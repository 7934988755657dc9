-- ===== src/Upload/Outcomes.antt =====
-- What an upload answers, and what it has done by then.
use mathlib.Core.List.{append-nil, append_assoc}
use project_6_document_class.Base.{
  ℕ, ◌+◌, ◌≤◌, ◌<◌, ◌≡◌, ◌≢◌, refl, sym, String, true, List, [], ◌∷◌, ◌++◌, Option, none, some, map,
  length, arith, All, Option-cases, inl, inr, Bool-cases, length-append,
}
use project_6_document_class.Domain.{User, Batch}
use project_6_document_class.App.{Env, World, Result}
use project_6_document_class.App.Laws.{Result-cases}
use project_6_document_class.FileName.{rsplit_extension, is_valid_extension}
use project_6_document_class.Blob.{max_file_bytes, original_key}
use project_6_document_class.Watcher.{Job}
use project_6_document_class.Routers.{Enforcer}
use project_6_document_class.BatchService.{create_batch}
use project_6_document_class.Upload.{
  UploadFile, Site, Queued, accepted, http_exception, name_or_empty, bad_extension, bad_content,
  store_and_queue, upload_documents, size_error,
}

-- A file that the checks let through.
abbrev pub IsAcceptable : UploadFile → Type 0
IsAcceptable f =
    (is_valid_extension (rsplit_extension (name_or_empty f.filename)) ≡ true)
    × (0 < length f.content)
    × (length f.content ≤ max_file_bytes)

size_error_lem :
    (n : Option String) (f : UploadFile)
    → size_error n f.content ≡ none
    → (0 < length f.content) × (length f.content ≤ max_file_bytes)
size_error_lem n f h = ground arith

checks_lem :
    (fs : List UploadFile) → bad_extension fs ≡ none → bad_content fs ≡ none → All IsAcceptable fs
unfolding bad_extension bad_content
checks_lem [] h k = tt
checks_lem (f ∷ fs) h k =
    elim (Bool-cases (is_valid_extension (rsplit_extension (name_or_empty f.filename)))) [
      | inr no_tiff ↦ ground (arith, no_tiff)
      | inl tiff ↦ elim (Option-cases (size_error f.filename f.content)) [
        | inr (d, e) ↦ ground (arith, e)
        | inl e ↦
            let size = size_error_lem f.filename f e in
            ((tiff, size.0, size.1), checks_lem fs (ground (arith, tiff)) (ground (arith, e)))
      ]
    ]

module _ (b r : String) where
  abbrev pub job_of : UploadFile → Job
  job_of f = record {
    batch_id = b;
    blob_key = original_key b (name_or_empty f.filename);
    request_id = r;
  }

  abbrev pub queued : UploadFile → String → Queued
  queued f i = record {
    filename = name_or_empty f.filename;
    blob_key = original_key b (name_or_empty f.filename);
    job_id = i;
  }

  -- The site when a file has been stored and queued.
  abbrev pub after : UploadFile → Site → Site
  after f s = record s {
    bucket = (original_key b (name_or_empty f.filename), f.content) ∷ s.bucket;
    queue = s.queue ++ job_of f ∷ [];
  }

  pub store_and_queue_lem :
      (fs : List UploadFile) (jobs : List Queued) (s : Site) {b' r' : String} {n : ℕ}
      {out : List Queued}
      → (store_and_queue b r fs jobs s).0 ≡ accepted b' n r' out
      → (b' ≡ b)
        × (n ≡ length jobs + length fs)
        × (length out ≡ n)
        × (r' ≡ r)
        × ((store_and_queue b r fs jobs s).1.queue ≡ s.queue ++ map job_of fs)
        × ((store_and_queue b r fs jobs s).1.world ≡ s.world)
  unfolding store_and_queue
  store_and_queue_lem [] jobs s h =
      (ground arith, ground arith, ground arith, ground arith, sym (append-nil s.queue), refl)
  store_and_queue_lem (f ∷ fs) jobs s {b' = b'} {r' = r'} {n = n} {out = out} h =
      elim (Option-cases f.job_id) [
        | inl e ↦ ground (arith, e)
        | inr (i, e) ↦ ground (
          arith,
          e,
          store_and_queue_lem fs (jobs ++ queued f i ∷ []) (after f s) {b' = b'} {r' = r'} {n = n}
              {out = out},
          length-append jobs (queued f i ∷ []),
          append_assoc s.queue (job_of f ∷ []) (map job_of fs),
        )
      ]

  store_and_queue-ne-http :
      (fs : List UploadFile) (jobs : List Queued) (s : Site) (code : ℕ) (detail : String)
      → (store_and_queue b r fs jobs s).0 ≢ http_exception code detail
  unfolding store_and_queue
  store_and_queue-ne-http [] jobs s code detail h = ground arith
  store_and_queue-ne-http (f ∷ fs) jobs s code detail h = elim (Option-cases f.job_id) [
    | inl e ↦ ground (arith, e)
    | inr (i, e) ↦
        ground
          (arith, e, store_and_queue-ne-http fs (jobs ++ queued f i ∷ []) (after f s) code detail)
  ]

module _ (env : Env) (enforcer : Enforcer) (files : List UploadFile) (actor : User) (s : Site) where
  abbrev made : Result Batch × World
  made =
      create_batch env (some (record { id = none; file_count = length files })) (some actor) s.world

  abbrev s₁ : Site
  s₁ = record s { world = record made.1 { draws = made.1.draws + 1 } }

  -- If an upload is answered by an HTTP error of the handler (403 or 422), nothing has changed:
  -- no batch, no object, no job.
  pub upload_refused :
      {code : ℕ} {detail : String}
      → (upload_documents env enforcer files actor s).0 ≡ http_exception code detail
      → (upload_documents env enforcer files actor s).1 ≡ s
  unfolding upload_documents
  upload_refused {code} {detail} h = elim (Result-cases made.0) [
    | inr (x, e) ↦ ground (arith, e)
    | inl (batch, e) ↦ ground (
      arith,
      e,
      store_and_queue-ne-http batch.id (env.uuid4 made.1.draws) files [] s₁ code detail,
    )
  ]

  -- If an upload is accepted, then every file of it has an accepted extension and is neither
  -- empty nor above the size limit; the answer counts all of them; and the queue has one more job
  -- for each, in their order, under the key of the file in the answer's batch.
  pub upload_accepted :
      {b r : String} {n : ℕ} {out : List Queued}
      → (upload_documents env enforcer files actor s).0 ≡ accepted b n r out
      → All IsAcceptable files
        × (n ≡ length files)
        × (length out ≡ n)
        × ((upload_documents env enforcer files actor s).1.queue
            ≡ s.queue ++ map (job_of b r) files)
  unfolding upload_documents
  upload_accepted {b} {r} {n} {out} h = elim (Result-cases made.0) [
    | inr (x, e) ↦ ground (arith, e)
    | inl (batch, e) ↦ ground (
      arith,
      e,
      checks_lem files,
      store_and_queue_lem batch.id (env.uuid4 made.1.draws) files [] s₁ {b' = b} {r' = r} {n = n}
          {out = out},
    )
  ]
