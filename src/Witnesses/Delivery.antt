-- ===== src/Witnesses/Delivery.antt =====
-- The way of documents through the processes at concrete inputs.
use project_6_document_class.Base.{
  ℕ, ◌≡◌, refl, String, true, List, [], ◌∷◌, some, All, arith, exists, none, select, map,
}
use project_6_document_class.Domain.{reviewer}
use project_6_document_class.App.{ok}
use project_6_document_class.App.Fresh.{IsFresh}
use project_6_document_class.Casbin.{load_policy, enforce, policy_csv}
use project_6_document_class.Routers
use project_6_document_class.FileName.{rsplit_extension, is_valid_extension, suffix, split_slash}
use project_6_document_class.Blob.{get_object, original_key}
use project_6_document_class.BatchService.{create_batch}
use project_6_document_class.Upload.{UploadFile, Site, accepted, upload_documents}
use project_6_document_class.Watcher
use project_6_document_class.Worker.{answered, ingest_create_batch}
use project_6_document_class.Worker.Classify.{Network}
use project_6_document_class.Pipeline.{Turn, Dequeue, IsFifo, drain}
use project_6_document_class.Pipeline.EndToEnd
use project_6_document_class.Pipeline.Ingest.{ingest, view}
use project_6_document_class.Pipeline.Ingest.Files
use project_6_document_class.Pipeline.Ingest.Polled
use project_6_document_class.Pipeline.Batch.{Delivered}
use project_6_document_class.Pipeline.Batch.{Delivered}
use project_6_document_class.Pipeline.Delivery.{IsAble, IsPlain}
use project_6_document_class.Pipeline.Stored.{IsDistinct, names}
use project_6_document_class.Domain.{text_in}
use project_6_document_class.Witnesses.{
  env, tally, tally_inj, ne-tally, row, rae, empty_world, half,
}

abbrev decide : Routers.Enforcer
decide = enforce (load_policy policy_csv [])

abbrev scan : String → ℕ → UploadFile
scan name byte = record {
  filename = some name;
  content = byte ∷ [];
  put_ok = true;
  job_id = some "j";
}

abbrev scans : List UploadFile
scans = scan "a.tif" 7 ∷ scan "b.tif" 8 ∷ []

abbrev site : Site
site = record {
  world = record empty_world { db = record empty_world.db { users = row "rae" reviewer ∷ [] } };
  bucket = [];
  queue = [];
}

-- The ids of the batch, of its log entry and of the request are the draws 0, 2 and 4.
scans_accepted :
    (upload_documents env decide scans rae site).0
    ≡ accepted (tally 0) 2 (tally 4) (
        record { filename = "a.tif"; blob_key = original_key (tally 0) "a.tif"; job_id = "j" }
        ∷ record { filename = "b.tif"; blob_key = original_key (tally 0) "b.tif"; job_id = "j" }
        ∷ [])
unfolding upload_documents rsplit_extension is_valid_extension exists create_batch load_policy tally
scans_accepted = refl

site-IsFresh : IsFresh env site.world
unfolding exists
site-IsFresh = record {
  uuid4_inj = tally_inj;
  users = λ n h. rw (ne-tally "r" "ae" n (omega arith)) refl;
  batches = λ n h. refl;
  predictions = λ n h. refl;
  audit_logs = λ n h. refl;
}

-- The network reads a memo off every document.
abbrev network : Network
network = record {
  predict = λ content. some ("memo", half);
  draw_overlay = λ content label confidence. some (1 ∷ []);
}

-- RQ, as a list.
abbrev dequeue : Dequeue
dequeue [] = none
dequeue (j ∷ js) = some (j, js)

dequeue-IsFifo : IsFifo dequeue
dequeue-IsFifo = (refl, λ j js. refl)

scans-IsAble : All (IsAble network) scans
scans-IsAble = (
  ("memo", half, 1 ∷ [], refl, refl, omega arith),
  (("memo", half, 1 ∷ [], refl, refl, omega arith), tt),
)

distinct : IsDistinct (names scans)
unfolding text_in
distinct = (refl, (refl, tt))

plain : All IsPlain scans
unfolding split_slash
plain = (refl, (refl, tt))

abbrev up : Turn
up = record { get_ok = true; put_ok = true; redis = answered }

upload-Delivered_example :
    Delivered network scans site
      (tally 0)
      (drain env network dequeue (up ∷ up ∷ []) (upload_documents env decide scans rae site).1).1
upload-Delivered_example =
    EndToEnd.upload-Delivered env network dequeue dequeue-IsFifo decide scans rae site
      (up ∷ up ∷ []) scans_accepted site-IsFresh refl distinct scans-IsAble plain
      ((refl, refl, refl), ((refl, refl, refl), tt)) (omega arith)

-- Two files in the directory of the scanner.
abbrev directory : Watcher.Poll
directory = record {
  listing = some ("a.tif" ∷ "b.tif" ∷ []);
  request_id = "r";
  batch = none;
  remote = λ f. record { connected = true; st_size = some 1; content = 7 ∷ [] };
  services = λ f. record { stat_ok = true; put_ok = true; enqueue_ok = true };
}

both_new : Watcher.list_new_files directory.listing (view [] site) ≡ "a.tif" ∷ "b.tif" ∷ []
unfolding Watcher.list_new_files select
both_new = refl

batch_made : (ingest_create_batch env none 2 site.world).0 ≡ ok (tally 0)
unfolding ingest_create_batch exists tally
batch_made = refl

both-IsGood : All (Files.IsGood directory) ("a.tif" ∷ "b.tif" ∷ [])
unfolding Watcher.reject_reason is_valid_extension suffix
both-IsGood = (
  (refl, (1, refl, omega arith), refl, refl, refl, refl),
  ((refl, (1, refl, omega arith), refl, refl, refl, refl), tt),
)

both-IsFree : All (Files.IsFree directory (tally 0) site.bucket) ("a.tif" ∷ "b.tif" ∷ [])
unfolding get_object
both-IsFree = (refl, (refl, tt))

documents-IsAble : All (IsAble network) (map (Files.document directory) ("a.tif" ∷ "b.tif" ∷ []))
documents-IsAble = (
  ("memo", half, 1 ∷ [], refl, refl, omega arith),
  (("memo", half, 1 ∷ [], refl, refl, omega arith), tt),
)

ingest-Delivered_example :
    Delivered network
      (map (Files.document directory) ("a.tif" ∷ "b.tif" ∷ []))
      site
      (tally 0)
      (drain env network dequeue (up ∷ up ∷ []) (ingest env none directory [] site).1).1
ingest-Delivered_example =
    Polled.ingest-Delivered env network dequeue dequeue-IsFifo none directory [] site "a.tif"
      ("b.tif" ∷ []) (up ∷ up ∷ []) both_new batch_made site-IsFresh refl distinct both-IsGood
      both-IsFree documents-IsAble plain ((refl, refl, refl), ((refl, refl, refl), tt))
      (omega arith)
