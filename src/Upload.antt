-- ===== src/Upload.antt =====
-- app/api/routers/upload.py: the HTTP way in.
pub mod Outcomes
use project_6_document_class.Base.{
  ℕ, ◌+◌, String, Bool, true, false, not, ◌==◌, List, [], ◌∷◌, ◌++◌, Option, none, some, ltb,
  if◌then◌else◌, length,
}
use Prim.Native.String.{◌++◌ as ◌+++◌}
use project_6_document_class.Domain.{User, Batch, role_value}
use project_6_document_class.App.{Env, World, Error, Result, ok, err}
use project_6_document_class.FileName.{rsplit_extension, is_valid_extension}
use project_6_document_class.Blob.{
  Bytes, Bucket, Upload, stored, too_large, unreachable, max_file_bytes, original_key, upload,
}
use project_6_document_class.Watcher.{Job}
use project_6_document_class.BatchService.{create_batch}
use project_6_document_class.Routers.{Enforcer}

-- A part of the form, with what MinIO and Redis answer when its turn comes: whether the object is
-- written, and the id of the job if it is taken.
pub record UploadFile : Type 0 where
  pub filename : Option String
  pub content : Bytes
  pub put_ok : Bool
  pub job_id : Option String

pub record Site : Type 0 where
  pub world : World
  pub bucket : Bucket
  pub queue : List Job

-- An entry of `jobs` in the answer.
pub record Queued : Type 0 where
  pub filename : String
  pub blob_key : String
  pub job_id : String

pub data Reply : Type 0 where
  accepted : (batch_id : String) → (file_count : ℕ) → (request_id : String) → List Queued → Reply
  http_exception : ℕ → String → Reply
  batch_failed : Error → Reply
  blob_failed queue_failed : Reply

abbrev pub name_or_empty : Option String → String
name_or_empty none = ""
name_or_empty (some name) = name

-- What `f"'{f.filename}'"` shows of a missing name.
abbrev shown : Option String → String
shown none = "None"
shown (some name) = name

-- The loop over the extensions, up to the first that is refused.
unfoldable pub bad_extension : List UploadFile → Option String
bad_extension [] = none
bad_extension (f ∷ fs) =
    if is_valid_extension (rsplit_extension (name_or_empty f.filename))
    then bad_extension fs
    else some ("'" +++ (name_or_empty f.filename +++ "': only .tiff and .tif files are accepted."))

-- `if not content` and the size limit.
abbrev size_error : Option String → Bytes → Option String
size_error filename [] = some ("'" +++ (shown filename +++ "' is empty."))
size_error filename (b ∷ bs) =
    if ltb max_file_bytes (length (b ∷ bs))
    then some ("'" +++ (shown filename +++ "' exceeds the 100 MB size limit."))
    else none

-- The loop over the contents, up to the first that is refused.
unfoldable pub bad_content : List UploadFile → Option String
bad_content [] = none
bad_content (f ∷ fs) = elim (size_error f.filename f.content) [
  | some detail ↦ some detail
  | none ↦ bad_content fs
]

module _ (batch_id request_id : String) where
  -- The loop that stores and queues. What is done before a failure stays done. A name that is
  -- missing has been refused by then.
  unfoldable pub store_and_queue : List UploadFile → List Queued → Site → Reply × Site
  unfolding upload
  store_and_queue [] jobs s = (accepted batch_id (length jobs) request_id jobs, s)
  store_and_queue (f ∷ fs) jobs s =
      let filename = name_or_empty f.filename in
      let blob_key = original_key batch_id filename in
      let (result, bucket') = upload f.put_ok blob_key f.content s.bucket in
      elim result [
        | stored ↦ elim f.job_id [
          | none ↦ (queue_failed, record s { bucket = bucket' })
          | some job_id ↦
              store_and_queue fs
                (jobs ++ record { filename = filename; blob_key = blob_key; job_id = job_id } ∷ [])
                (record s {
                  bucket = bucket';
                  queue =
                      s.queue
                      ++ record {
                        batch_id = batch_id;
                        blob_key = blob_key;
                        request_id = request_id;
                      }
                        ∷ [];
                })
        ]
        | too_large ↦ (blob_failed, s)
        | unreachable ↦ (blob_failed, s)
      ]

module _ (env : Env) where
  -- Once the batch is there, `request_id` is drawn and the files go in.
  abbrev on_batch : List UploadFile → Result Batch × World → Site → Reply × Site
  on_batch files (err e, w) s = (batch_failed e, record s { world = w })
  on_batch files (ok batch, w) s =
      store_and_queue batch.id (env.uuid4 w.draws) files []
        (record s { world = record w { draws = w.draws + 1 } })

  abbrev on_checked : List UploadFile → User → Site → Option String → Reply × Site
  on_checked files actor s (some detail) = (http_exception 422 detail, s)
  on_checked files actor s none =
      on_batch files
        (create_batch env (some (record { id = none; file_count = length files })) (some actor)
          s.world)
        s

  abbrev on_named : List UploadFile → User → Site → Option String → Reply × Site
  on_named files actor s (some detail) = (http_exception 422 detail, s)
  on_named files actor s none = on_checked files actor s (bad_content files)

  abbrev on_allowed : List UploadFile → User → Site → Reply × Site
  on_allowed [] actor s = (http_exception 422 "No files provided.", s)
  on_allowed (f ∷ fs) actor s = on_named (f ∷ fs) actor s (bad_extension (f ∷ fs))

  unfoldable pub upload_documents : Enforcer → List UploadFile → User → Site → Reply × Site
  unfolding bad_extension bad_content store_and_queue
  upload_documents enforcer files actor s =
      if enforcer (role_value actor.role) "/upload" "POST"
      then on_allowed files actor s
      else (http_exception 403 "Forbidden", s)
