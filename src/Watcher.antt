-- ===== src/Watcher.antt =====
-- app/infra/sftp_watcher.py and app/infra/queue.py. The SFTP server, MinIO and Redis enter as what
-- they answer to the calls that one file takes; the log lines are left out.
pub mod Outcomes
pub mod Once
use project_6_document_class.Base.{
  ℕ, String, Bool, true, false, not, ◌==◌, List, [], ◌∷◌, ◌++◌, Option, none, some, ltb,
  if◌then◌else◌, length, select,
}
use project_6_document_class.FileName.{suffix, is_valid_extension}
use project_6_document_class.Blob.{
  Bytes, Bucket, Upload, stored, too_large, unreachable, max_file_bytes, original_key,
  quarantine_key, upload, exists,
}

-- The keyword arguments of a job in the queue.
pub record Job : Type 0 where
  pub batch_id : String
  pub blob_key : String
  pub request_id : String

-- `_seen`, and the two stores that the watcher writes to.
pub record Watcher : Type 0 where
  pub seen : List String
  pub bucket : Bucket
  pub queue : List Job

-- A file on the server: whether the session holds, the size that `stat` gives, and the content.
pub record Remote : Type 0 where
  pub connected : Bool
  pub st_size : Option ℕ
  pub content : Bytes

-- Whether MinIO answers `stat_object`, whether it answers `put_object`, and whether Redis takes
-- the job.
pub record Services : Type 0 where
  pub stat_ok : Bool
  pub put_ok : Bool
  pub enqueue_ok : Bool

abbrev pub text_in : String → List String → Bool
text_in x [] = false
text_in x (y ∷ ys) = if x == y then true else text_in x ys

-- `attr.st_size or 0`
abbrev size_or_zero : Option ℕ → ℕ
size_or_zero none = 0
size_or_zero (some n) = n

-- Any exception of the download is `none`.
unfoldable pub sftp_download : Remote → Option Bytes
sftp_download r =
    if not r.connected
    then none
    else if ltb max_file_bytes (size_or_zero r.st_size)
    then none
    else some r.content

pub data Reason : Type 0 where
  zero_byte unsupported_extension file_too_large : Reason

unfoldable pub reject_reason : String → Bytes → Option Reason
reject_reason filename [] = some zero_byte
reject_reason filename (b ∷ bs) =
    if not (is_valid_extension (suffix filename))
    then some unsupported_extension
    else if ltb max_file_bytes (length (b ∷ bs))
    then some file_too_large
    else none

-- `self._seen.add(filename)`: a set, so a second time changes nothing.
abbrev pub mark_seen : String → Watcher → Watcher
mark_seen f w = record w { seen = if text_in f w.seen then w.seen else f ∷ w.seen }

-- `enqueue_classify`.
abbrev pub enqueue_classify : String → String → String → Watcher → Watcher
enqueue_classify batch_id blob_key request_id w = record w {
  queue =
      w.queue ++ record { batch_id = batch_id; blob_key = blob_key; request_id = request_id } ∷ [];
}

module _ (filename batch_id request_id : String) (sv : Services) where
  -- The queue, once the file is in the bucket. A job that Redis did not take is lost.
  unfoldable pub enqueue : Watcher → Watcher
  enqueue w =
      if sv.enqueue_ok
      then mark_seen filename
          (enqueue_classify batch_id (original_key batch_id filename) request_id w)
      else mark_seen filename w

  unfoldable pub store_and_enqueue : Bytes → Watcher → Watcher
  unfolding enqueue upload
  store_and_enqueue content w =
      let (result, bucket') = upload sv.put_ok (original_key batch_id filename) content w.bucket in
      elim result [
        | stored ↦ enqueue (record w { bucket = bucket' })
        | too_large ↦ w
        | unreachable ↦ w
      ]

  unfoldable pub quarantine : Bytes → Watcher → Watcher
  unfolding upload
  quarantine content w =
      let (_, bucket') = upload sv.put_ok (quarantine_key batch_id filename) content w.bucket in
      mark_seen filename (record w { bucket = bucket' })

  unfoldable pub on_content : Option Bytes → Watcher → Watcher
  unfolding store_and_enqueue quarantine
  on_content none w = w
  on_content (some content) w = elim (reject_reason filename content) [
    | some _ ↦ quarantine content w
    | none ↦ store_and_enqueue content w
  ]

  unfoldable pub process_file : Remote → Watcher → Watcher
  unfolding on_content
  process_file remote w =
      if exists sv.stat_ok (original_key batch_id filename) w.bucket
      then mark_seen filename w
      else on_content (sftp_download remote) w

-- What the listing of the watch directory gives: a failed connection is an empty one.
unfoldable pub list_new_files : Option (List String) → Watcher → List String
unfolding select
list_new_files none w = []
list_new_files (some entries) w = select (λ f. not (text_in f w.seen)) entries

-- What the world does during one poll.
pub record Poll : Type 0 where
  pub listing : Option (List String)
  pub request_id : String
  -- the id of the batch, if `create_batch` does not raise
  pub batch : Option String
  pub remote : String → Remote
  pub services : String → Services

unfoldable pub process_files : Poll → String → List String → Watcher → Watcher
process_files p batch_id [] w = w
process_files p batch_id (f ∷ fs) w =
    process_files p batch_id fs (process_file f batch_id p.request_id (p.services f) (p.remote f) w)

abbrev on_batch : Poll → List String → Option String → Watcher → Watcher
on_batch p files none w = w
on_batch p files (some batch_id) w = process_files p batch_id files w

-- `_poll`, and the `except` of `run`: a poll that raises changes nothing more.
unfoldable pub poll : Poll → Watcher → Watcher
poll p w = elim (list_new_files p.listing w) [ [] ↦ w | f ∷ fs ↦ on_batch p (f ∷ fs) p.batch w ]

-- The loop of `run`, over the polls that the process lives to make.
unfoldable pub run : List Poll → Watcher → Watcher
run [] w = w
run (p ∷ ps) w = run ps (poll p w)
