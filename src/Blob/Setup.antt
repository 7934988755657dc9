-- ===== src/Blob/Setup.antt =====
-- The set-up of the storage in app/infra/blob.py: `get_blob_storage`, with `BlobStorage.__init__`
-- and `_ensure_bucket`. A set-up gives the buckets that it leaves at its endpoint, and whether it answers is an
-- argument.
use project_6_document_class.Base.{
  ◌≡◌, String, Bool, true, false, List, ◌∷◌, Option, none, some, if◌then◌else◌, arith, ◌⊎◌, eq_refl,
}
use project_6_document_class.Domain.{text_in}
use project_6_document_class.Vault.{Outside, Client, Secret, value, get_secret}

-- What the client of MinIO is given.
pub record BlobStorage : Type 0 where
  pub endpoint : String
  pub access_key : String
  pub secret_key : String
  pub bucket : String
  pub secure : Bool

-- What one set-up finds: the environment with Vault, `MINIO_ENDPOINT`, the names
-- of the buckets at that endpoint, and whether
-- `bucket_exists` and `make_bucket` come back without an `S3Error`.
pub record Surroundings : Type 0 where
  pub outside : Outside
  pub minio_endpoint : Option String
  pub buckets : List String
  pub exists_ok : Bool
  pub make_ok : Bool

pub data Setup : Type 0 where
  opened : BlobStorage → Setup
  no_secret : Secret → Setup
  no_bucket : Setup

abbrev pub documents : String
documents = "documents"

abbrev pub endpoint_of : Option String → String
endpoint_of none = "minio:9000"
endpoint_of (some endpoint) = endpoint

-- Whether it comes back, and the buckets after it; a failure is the `RuntimeError`.
unfoldable pub ensure_bucket : Bool → Bool → String → List String → Bool × List String
ensure_bucket exists_ok make_ok bucket buckets =
    if exists_ok
    then (if text_in bucket buckets
        then (true, buckets)
        else if make_ok
        then (true, bucket ∷ buckets)
        else (false, buckets))
    else (false, buckets)

-- `__init__`.
unfoldable pub init : Bool → Bool → BlobStorage → List String → Setup × List String
unfolding ensure_bucket
init exists_ok make_ok storage buckets =
    let (done, buckets') = ensure_bucket exists_ok make_ok storage.bucket buckets in
    (if done then opened storage else no_bucket, buckets')

abbrev storage_of : Surroundings → String → String → BlobStorage
storage_of s access_key secret_key = record {
  endpoint = endpoint_of s.minio_endpoint;
  access_key = access_key;
  secret_key = secret_key;
  bucket = documents;
  secure = false;
}

abbrev open_storage : Surroundings → String → Secret × Client → Setup × List String × Client
open_storage s access_key (value secret_key, client) =
    let (setup, buckets') =
      init s.exists_ok s.make_ok (storage_of s access_key secret_key) s.buckets in
    (setup, buckets', client)
open_storage s access_key (failure, client) = (no_secret failure, s.buckets, client)

abbrev with_access : Surroundings → Secret × Client → Setup × List String × Client
with_access s (value access_key, client) =
    open_storage s access_key (get_secret s.outside "MINIO_SECRET_KEY" client)
with_access s (failure, client) = (no_secret failure, s.buckets, client)

-- A secret that cannot be read raises, and the client of Vault is the one that it left.
unfoldable pub get_blob_storage : Surroundings → Client → Setup × List String × Client
unfolding init get_secret
get_blob_storage s client = with_access s (get_secret s.outside "MINIO_ACCESS_KEY" client)

-- If the set-up of the storage returns, it has its endpoint from the variable or the default and
-- the two secrets of MinIO that Vault or the environment gives, the bucket for the documents is
-- there, at most that bucket was made, and a later set-up that finds the buckets that this one
-- left makes no bucket, whatever else it finds.
pub get_blob_storage_ok :
    (s : Surroundings) (client : Client) {storage : BlobStorage}
    → (get_blob_storage s client).0 ≡ opened storage
    → let (_, buckets', client') = get_blob_storage s client in
      (storage.endpoint ≡ endpoint_of s.minio_endpoint)
      × ((get_secret s.outside "MINIO_ACCESS_KEY" client).0 ≡ value storage.access_key)
      × ((get_secret s.outside "MINIO_SECRET_KEY" client).0 ≡ value storage.secret_key)
      × (text_in documents buckets' ≡ true)
      × ((buckets' ≡ s.buckets) ⊎ (buckets' ≡ documents ∷ s.buckets))
      × ((later : Surroundings)
          → later.buckets ≡ buckets'
          → (get_blob_storage later client').1 ≡ later.buckets)
unfolding get_blob_storage text_in get_secret
get_blob_storage_ok s client {storage} h = (
  ground arith,
  ground arith,
  ground arith,
  ground (arith, eq_refl documents),
  ground arith,
  λ later same. ground (arith, same, eq_refl documents),
)
