-- ===== src/Watcher/Outcomes.antt =====
-- What becomes of one file.
use project_6_document_class.Base.{
  ℕ, ◌<◌, ◌≡◌, ◌≢◌, String, true, false, ◌==◌, eq_iff, eq_refl, List, [], ◌∷◌, ◌++◌, none, some,
  arith, ◌⊎◌, if◌then◌else◌,
}
use project_6_document_class.Blob.{max_file_bytes, original_key, get_object, exists}
use project_6_document_class.Watcher.{
  Job, Watcher, Remote, Services, text_in, sftp_download, reject_reason, process_file,
}

-- Facts about the set of seen names.
text_in-mark :
    (f g : String) (seen : List String)
    → text_in g (if text_in f seen then seen else f ∷ seen)
      ≡ (if f == g then true else text_in g seen)
text_in-mark f g seen = ground (arith, eq_iff f g, eq_iff g f)

module _ (f batch_id request_id : String) (sv : Services) (remote : Remote) (w : Watcher) where
  abbrev w' : Watcher
  w' = process_file f batch_id request_id sv remote w

  abbrev job : Job
  job = record { batch_id = batch_id; blob_key = original_key batch_id f; request_id = request_id }

  -- Whatever fails while one file is processed: either the queue stays as it is, or exactly one
  -- job is added, and then the file passes the validation, its content is in the bucket under the
  -- key of the job, and its name is seen.
  pub process_file_queue :
      (w'.queue ≡ w.queue)
      ⊎ ((w'.queue ≡ w.queue ++ job ∷ [])
          × (reject_reason f remote.content ≡ none)
          × (get_object (original_key batch_id f) w'.bucket ≡ some remote.content)
          × (text_in f w'.seen ≡ true))
  unfolding process_file sftp_download get_object
  process_file_queue =
      ground (arith, eq_refl (original_key batch_id f), text_in-mark f f w.seen, eq_refl f)

  -- If the name of a file is not seen after it was processed, nothing has changed: neither the
  -- seen names, nor the bucket, nor the queue.
  pub process_file_retry : text_in f w'.seen ≡ false → w' ≡ w
  unfolding process_file sftp_download
  process_file_retry h = ground (arith, text_in-mark f f w.seen, eq_refl f)

  -- Other names are seen as before.
  pub process_file_others : (g : String) → g ≢ f → text_in g w'.seen ≡ text_in g w.seen
  unfolding process_file sftp_download
  process_file_others g ne = ground (arith, text_in-mark f g w.seen, eq_iff f g)

  -- If the server states a size above the limit, and the key of the file is not found in the
  -- bucket, processing the file changes nothing: it is neither quarantined nor marked as seen.
  pub process_file_oversized :
      (n : ℕ)
      → remote.st_size ≡ some n
      → max_file_bytes < n
      → exists sv.stat_ok (original_key batch_id f) w.bucket ≡ false
      → w' ≡ w
  unfolding process_file sftp_download
  process_file_oversized n size h absent = ground arith
