-- ===== src/Pipeline/Ingest/Files.antt =====
-- What one poll of the SFTP watcher makes of its files, while the services answer.
use mathlib.Core.List.{append-nil, append_assoc}
use project_6_document_class.Base.{
  ℕ, ◌≤◌, ◌≡◌, refl, sym, ap, ◌∙◌, subst, String, true, false, List, [], ◌∷◌, ◌++◌, none, some, map,
  length, arith, All, eq_iff, eq_refl,
}
use project_6_document_class.Domain.{text_in}
use project_6_document_class.Blob.{Bytes, Bucket, get_object, original_key, max_file_bytes, exists}
use project_6_document_class.Blob.Keys.{original_key_inj}
use project_6_document_class.Upload.{UploadFile}
use project_6_document_class.Upload.Outcomes.{job_of}
use project_6_document_class.Watcher.{
  Watcher, Poll, Job, process_file, process_files, reject_reason, mark_seen, sftp_download,
}
use project_6_document_class.Pipeline.Stored.{IsDistinct, IsStored}

reject_reason_small :
    (f : String) (content : Bytes)
    → reject_reason f content ≡ none
    → length content ≤ max_file_bytes
unfolding reject_reason
reject_reason_small f [] h = absurd (ground (arith, h))
reject_reason_small f (c ∷ cs) h = ground (arith, h)

module _ (p : Poll) where
  -- A file of the directory, as a document with its name.
  abbrev pub document : String → UploadFile
  document f = record {
    filename = some f;
    content = (p.remote f).content;
    put_ok = true;
    job_id = none;
  }

  -- The file is loaded, passes the validation, and MinIO and Redis answer for it.
  abbrev pub IsGood : String → Type 0
  IsGood f =
      ((p.remote f).connected ≡ true)
      × ((size : ℕ) × ((p.remote f).st_size ≡ some size) × (size ≤ max_file_bytes))
      × (reject_reason f (p.remote f).content ≡ none)
      × ((p.services f).stat_ok ≡ true)
      × ((p.services f).put_ok ≡ true)
      × ((p.services f).enqueue_ok ≡ true)

  module _ (b : String) where
    abbrev pub IsFree : Bucket → String → Type 0
    IsFree bucket f = get_object (original_key b f) bucket ≡ none

    abbrev job : String → Job
    job f = job_of b p.request_id (document f)

    abbrev stored : String → Watcher → Watcher
    stored f w = mark_seen f (record w {
      bucket = (original_key b f, (p.remote f).content) ∷ w.bucket;
      queue = w.queue ++ job f ∷ [];
    })

    process_file_good :
        (f : String) (w : Watcher)
        → IsGood f
        → IsFree w.bucket f
        → process_file f b p.request_id (p.services f) (p.remote f) w ≡ stored f w
    unfolding process_file sftp_download exists
    process_file_good f w (connected, (size, sized, small), valid, stat, put, queued) free =
        ground (
          arith,
          connected,
          sized,
          small,
          valid,
          reject_reason_small f (p.remote f).content valid,
          stat,
          put,
          queued,
          free,
        )

    -- The next files' keys stay free.
    IsFree-stored :
        (f : String) (fs : List String) (w : Watcher)
        → text_in f fs ≡ false
        → All (IsFree w.bucket) fs
        → All (IsFree (stored f w).bucket) fs
    unfolding text_in get_object
    IsFree-stored f [] w new free = tt
    IsFree-stored f (g ∷ gs) w new free = (
      ground (
        arith,
        new,
        free.0,
        eq_iff f g,
        eq_iff (original_key b f) (original_key b g),
        original_key_inj b f g,
      ),
      IsFree-stored f gs w (ground (arith, new)) free.1,
    )

    -- What a poll has made of its files: a job for each, its content, and no other object.
    abbrev pub IsPolled : List String → Watcher → Watcher → Type 0
    IsPolled fs w w' =
        (w'.queue ≡ w.queue ++ map (job_of b p.request_id) (map document fs))
        × All (IsStored b p.request_id w'.bucket) (map document fs)
        × ((n : String)
            → text_in n fs ≡ false
            → get_object (original_key b n) w'.bucket ≡ get_object (original_key b n) w.bucket)

    pub files-IsPolled :
        (fs : List String) (w : Watcher)
        → IsDistinct fs
        → All IsGood fs
        → All (IsFree w.bucket) fs
        → IsPolled fs w (process_files p b fs w)
    unfolding process_files get_object text_in
    files-IsPolled [] w distinct good free = (sym (append-nil w.queue), tt, λ n other. refl)
    files-IsPolled (f ∷ fs) w distinct good free =
        let w₁ = stored f w in
        let step : process_files p b (f ∷ fs) w ≡ process_files p b fs w₁ =
          ap (process_files p b fs) (process_file_good f w good.0 free.0) in
        let (queue, stored_rest, kept) =
          files-IsPolled fs w₁ distinct.1 good.1 (IsFree-stored f fs w distinct.0 free.1) in
        subst (IsPolled (f ∷ fs) w) (sym step) (
          queue ∙ append_assoc w.queue (job f ∷ []) (map (job_of b p.request_id) (map document fs)),
          (kept f distinct.0 ∙ (rw (eq_refl (original_key b f))), stored_rest),
          λ n other.
              kept n (ground (arith, other))
              ∙ ground (
                arith,
                other,
                eq_iff n f,
                eq_iff (original_key b f) (original_key b n),
                original_key_inj b f n,
              ),
        )
