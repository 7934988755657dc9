-- ===== src/Lib.antt =====
-- The document classifier of docclassifier-week6/: users and scanner vendors hand in TIFF files, a
-- worker classifies them with a neural network, and the API shows the results and lets people
-- correct them.
--
-- The parts and how they meet:
--   The API (app/api) guards each handler by the policy of casbin/ and calls a service. A service
--   (app/services) runs one transaction over the repositories (app/repositories), writes the audit
--   log in it, and drops cached responses after it. Files come in by the upload handler or by the
--   SFTP watcher; both store them in MinIO and put a job into the queue in Redis. The worker takes
--   the job and saves its result through the services.
--
-- The files, with what they model:
--   Base: tests on numbers, lists, and tables as lists of rows with select, update, delete_where,
--     count and exists; Base/RowLaws has the laws that the components share, Base/Texts what tells
--     texts apart.
--   App: computations over the database, the deleted cache keys and the draws, with errors as
--     values. `begin` is `async with self.db.begin()`: an error restores the tables. An `Env` gives
--     the n-th draw of uuid4, the clock and the password hash. App/Fresh says that drawn ids are new.
--   Domain, Db: app/domain, app/classifier/classes.py, app/db/models.py. Domain/Ieee compares
--     doubles by their bits, as Python compares floats.
--   Repo/UserRepo, Repo/BatchRepo, Repo/PredictionRepo, Repo/AuditRepo: app/repositories, a function
--     per method. Repo/OrderBy has the laws of a listing that is ordered by a time.
--   UserService, BatchService, PredictionService: app/services, a function per method (AuditService
--     is in PredictionService). Below them stand what the calls leave (Effects, Relabels, Saves,
--     Created, Transitions), the admins (Admins), sequences of requests (Requests) and the life cycle of a
--     batch as a step relation (Machine). UserService/Race runs two transactions of change_role
--     whose reads and commits alternate.
--   Services: the writing calls of app/services as one type, with what each may change (Change), the
--     constraints of app/db/models.py that they keep (Constraints, Accounts, Schema), what of the
--     tables each response depends on (Frame, Coherence), and the responses in Redis (CacheStore).
--     Redis, with the decorator `@cache` of fastapi-cache in front of it, is the interface `Redis`.
--   AuditTrail: the audit log read back as the history of the batches.
--   Worker: `classify` (in Worker/Classify) and `_persist_async` of
--     app/workers/inference_worker.py, and `_create_batch` of app/workers/sftp_ingest.py. Below
--     them stand what one job leaves (Persist, Drawn, Turn; Unanswered without Redis), the labels
--     that it saves (Labels), and the process with `_get_blob` and `_get_model`, which runs job
--     after job (Process). `_main` of the ingest worker is in IngestMain.
--   Pipeline: the upload handler, the queue and the workers together. RQ is not part of the program:
--     `Dequeue` is how it takes a job from the queue, and `IsFifo` its documented order, in which each
--     job is handed out once. A job that raises is not tried again. A `Turn` says what MinIO and Redis
--     answer it. Pipeline/Batch has the batch of some files from its making to its end, for both ways
--     in: the upload (EndToEnd) and a poll of the watcher over the tables (Ingest).
--   Limiter: the middleware of app/api/main.py. A time is a natural number of nanoseconds of the
--     monotonic clock.
--   FileName, Blob: the names and object keys of app/infra/blob.py, its operations on a bucket, and
--     the set-up of the storage (Blob/Setup). Blob/Keys says which keys are distinct.
--   Overlay: app/classifier/overlay.py. PIL is the interface `Drawing`, its pixels are in
--     Overlay/Pixels.
--   Watcher: app/infra/sftp_watcher.py and app/infra/queue.py. A `Poll` says what the server, MinIO,
--     Redis and the database answer during one poll; `run` is the loop over the polls of a process.
--   Upload: app/api/routers/upload.py.
--   Casbin: the loading of casbin/policy.csv in app/api/main.py, and casbin/model.conf.
--   Startup: `lifespan` of app/api/main.py with the set-up of the enforcer, and what app/api/deps.py
--     and app/api/routers/auth.py take from it. A `Found` says what one start finds outside.
--   Routers: the other handlers of app/api/routers.
--   Cache: app/infra/cache.py, the keys and their deletion. The services delete by an invalidator
--     that does not raise; `under_redis` runs a call where Redis answers some deletions and then
--     raises, as the workers may find it.
--   Vault: app/infra/vault.py. Classifier: the integrity check of app/classifier/model.py and
--     app/classifier/eval/golden.py; `load_model` and `predict` over the interface `Torch`
--     (Classifier/Predict). SeedAdmin: scripts/seed_admin.py.
--   Dashboard: streamlit-dashboard.py: the helpers, the API client (Client), the loaders (Loads) and
--     what the tabs offer to whom (Tabs), with the policy of the API (Permits) and the rule of
--     relabelling (Review); the session and the forms (Session), the formatters (Formats) and the rows
--     picked by their texts (Picks). The server behind httpx is an argument.
--   Witnesses: the theorems at concrete inputs, and tests.
--
-- Bounds: every loop of the program runs over a finite list (files, polls, requests, rows, lines),
-- so the functions are structural recursions and no fuel is needed. Numbers are natural numbers, as
-- Python's integers do not overflow; the size limit is 100 MB and the login window sixty seconds.
--
-- Not modelled: deletions that raise in the API's own calls, the network and the image transforms
-- (PyTorch), PIL, MinIO, authentication by fastapi-users, the widgets and styles of the
-- dashboard, migrations, set-up of the database and Redis clients, and log lines. Transactions
-- run one after another, but in UserService/Race. The rows that the API sends to the dashboard
-- are objects, as the handlers return them.
pub mod Base
pub mod Domain
pub mod Db
pub mod App
pub mod Repo
pub mod Services
pub mod Cache
pub mod UserService
pub mod BatchService
pub mod PredictionService
pub mod Worker
pub mod Limiter
pub mod FileName
pub mod Blob
pub mod Watcher
pub mod Casbin
pub mod Routers
pub mod Upload
pub mod Overlay
pub mod Pipeline
pub mod AuditTrail
pub mod Vault
pub mod Classifier
pub mod SeedAdmin
pub mod Startup
pub mod Dashboard
pub mod Witnesses
