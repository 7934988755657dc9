-- ===== src/Blob.antt =====
-- app/infra/blob.py: the keys of the documents, and the operations on the bucket. MinIO itself is
-- not part of the program: the bucket is the list of its objects, the last one written first, and
-- whether a call reaches it (an `S3Error` or not) is an argument.
pub mod Keys
pub mod Setup
use Prim.Native.String.{◌++◌ as ◌+++◌}
use project_6_document_class.Base.{
  ℕ, ◌*◌, String, Bool, true, false, ◌==◌, List, [], ◌∷◌, Option, none, some, ltb, if◌then◌else◌,
  length,
}
use project_6_document_class.FileName.{stem}

abbrev pub Bytes : Type 0
Bytes = List ℕ

abbrev pub max_file_bytes : ℕ
max_file_bytes = 100 * 1024 * 1024

unfoldable pub original_key : String → String → String
original_key batch_id filename = ("batches/" +++ (batch_id +++ "/original/")) +++ filename

unfoldable pub overlay_key : String → String → String
overlay_key batch_id filename =
    "batches/" +++ (batch_id +++ ("/overlay/" +++ (stem filename +++ ".png")))

unfoldable pub quarantine_key : String → String → String
quarantine_key batch_id filename = ("quarantine/" +++ (batch_id +++ "/")) +++ filename

abbrev pub Bucket : Type 0
Bucket = List (String × Bytes)

unfoldable pub get_object : String → Bucket → Option Bytes
get_object key [] = none
get_object key ((k, d) ∷ b) = if k == key then some d else get_object key b

-- What an upload ends in: `ValueError`, `RuntimeError`, or the object stored.
pub data Upload : Type 0 where
  stored too_large unreachable : Upload

unfoldable pub upload : Bool → String → Bytes → Bucket → Upload × Bucket
upload reached key content bucket =
    if ltb max_file_bytes (length content)
    then (too_large, bucket)
    else if reached
    then (stored, (key, content) ∷ bucket)
    else (unreachable, bucket)

-- `RuntimeError` is `none`.
unfoldable pub download : Bool → String → Bucket → Option Bytes
unfolding get_object
download reached key bucket = if reached then get_object key bucket else none

-- An `S3Error` counts as absence.
unfoldable pub exists : Bool → String → Bucket → Bool
unfolding get_object
exists reached key bucket =
    if reached then elim (get_object key bucket) [ none ↦ false | some _ ↦ true ] else false
