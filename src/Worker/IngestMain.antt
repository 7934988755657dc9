-- ===== src/Worker/IngestMain.antt =====
-- `_main` of app/workers/sftp_ingest.py, up to `watcher.run()`, with `get_classify_queue` of
-- app/infra/queue.py. The environment and Python's `int` are arguments.
use project_6_document_class.Base.{
  ◌≡◌, refl, sym, subst, ap, ◌∙◌, String, List, Option, none, some, arith, ◌⊎◌, inl, inr, ◌↔◌,
  Option-cases,
}
use project_6_document_class.Blob.Setup.{
  BlobStorage, Surroundings, Setup, opened, no_secret, no_bucket, get_blob_storage,
}
use project_6_document_class.Vault.{Client, Secret}

abbrev pub environ_get : (String → Option String) → String → String → String
environ_get getenv key default = elim (getenv key) [ none ↦ default | some v ↦ v ]

-- What the watcher is built from, with the address of the queue in Redis.
pub record Config (Number : Type 0) : Type 0 where
  pub host : String
  pub port : Number
  pub user : String
  pub password : String
  pub watch_path : String
  pub poll_interval : Number
  pub blob : BlobStorage
  pub redis_url : String

pub data Main (Number : Type 0) : Type 0 where
  watching : Config Number → Main Number
  no_storage : Setup → Main Number
  value_error : Main Number

-- `get_classify_queue`: a client of Redis connects with its first command, not here.
abbrev pub classify_queue_url : (String → Option String) → String
classify_queue_url getenv = environ_get getenv "REDIS_URL" "redis://redis:6379/0"

watching_inj : {Number : Type 0} {c d : Config Number} → watching c ≡ watching d → c ≡ d
watching_inj h = cc

Setup-cases :
    (r : Setup)
    → ((storage : BlobStorage) × (r ≡ opened storage))
      ⊎ (((x : Secret) × (r ≡ no_secret x)) ⊎ (r ≡ no_bucket))
Setup-cases (opened storage) = inl (storage, refl)
Setup-cases (no_secret x) = inr (inl (x, refl))
Setup-cases no_bucket = inr (inr refl)

module _ {Number : Type 0} (int : String → Option Number) (getenv : String → Option String) where
  abbrev config : BlobStorage → Number → Number → Config Number
  config storage port poll_interval = record {
    host = environ_get getenv "SFTP_HOST" "sftp";
    port = port;
    user = environ_get getenv "SFTP_USER" "scanner";
    password = environ_get getenv "SFTP_PASSWORD" "scanner";
    watch_path = environ_get getenv "SFTP_WATCH_PATH" "/upload";
    poll_interval = poll_interval;
    blob = storage;
    redis_url = classify_queue_url getenv;
  }

  abbrev with_numbers : BlobStorage → Option Number → Option Number → Main Number
  with_numbers storage (some port) (some poll_interval) =
      watching (config storage port poll_interval)
  with_numbers storage _ _ = value_error

  abbrev with_storage : Setup → Main Number
  with_storage (opened storage) =
      with_numbers storage (int (environ_get getenv "SFTP_PORT" "22"))
        (int (environ_get getenv "SFTP_POLL_INTERVAL" "5"))
  with_storage failure = no_storage failure

  unfoldable pub main : Surroundings → Client → Main Number × List String × Client
  unfolding get_blob_storage
  main s client =
      let (setup, buckets', client') = get_blob_storage s client in
      (with_storage setup, buckets', client')

  -- The watcher starts exactly if the storage is set up and both numbers of the environment, or
  -- their defaults, are integers.
  pub main_iff :
      (s : Surroundings) (client : Client) (c : Config Number)
      → ((main s client).0 ≡ watching c) ↔ (
          ((get_blob_storage s client).0 ≡ opened c.blob)
          × (int (environ_get getenv "SFTP_PORT" "22") ≡ some c.port)
          × (int (environ_get getenv "SFTP_POLL_INTERVAL" "5") ≡ some c.poll_interval)
          × (c ≡ config c.blob c.port c.poll_interval))
  unfolding main
  main_iff s client c = (
    λ h. elim (Setup-cases (get_blob_storage s client).0) [
      | inl (storage, e) ↦ elim (Option-cases (int (environ_get getenv "SFTP_PORT" "22"))) [
        | inl p ↦ absurd (ground (arith, e, p, h))
        | inr (port, p) ↦ elim (Option-cases (int (environ_get getenv "SFTP_POLL_INTERVAL" "5"))) [
          | inl q ↦ absurd (ground (arith, e, p, q, h))
          | inr (interval, q) ↦
              let same : config storage port interval ≡ c =
                watching_inj (ground (arith, e, p, q, h)) in
              (
                e ∙ ap (λ (k : Config Number). opened k.blob) same,
                p ∙ ap (λ (k : Config Number). some k.port) same,
                q ∙ ap (λ (k : Config Number). some k.poll_interval) same,
                subst (λ (k : Config Number). k ≡ config k.blob k.port k.poll_interval) same refl,
              )
        ]
      ]
      | inr (inl (x, e)) ↦ absurd (ground (arith, e, h))
      | inr (inr e) ↦ absurd (ground (arith, e, h))
    ],
    λ t.
        ap (λ (r : Setup). with_storage r) t.0
        ∙ ap (λ n. with_numbers c.blob n (int (environ_get getenv "SFTP_POLL_INTERVAL" "5"))) t.1
        ∙ ap (λ n. with_numbers c.blob (some c.port) n) t.2
        ∙ ap watching (sym t.3),
  )
