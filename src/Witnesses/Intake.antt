-- ===== src/Witnesses/Intake.antt =====
-- The properties of the limiter, of the watcher and of the upload at concrete inputs.
use project_6_document_class.Base.{
  ℕ, ◌+◌, ◌≤◌, ◌≡◌, refl, String, true, false, List, [], ◌∷◌, ◌++◌, none, some, map, All, length,
  arith, ◌↔◌, ◌⊎◌, exists, ◌==◌,
}
use project_6_document_class.Domain.{reviewer, User}
use project_6_document_class.App.{Env, World}
use project_6_document_class.FileName.{suffix, rsplit_extension, is_valid_extension}
use project_6_document_class.Blob
use project_6_document_class.Blob.{max_file_bytes, original_key, get_object}
use project_6_document_class.Limiter
use project_6_document_class.Limiter.{login_max, login_rate_limit, too_many, recent}
use project_6_document_class.Limiter.Window
use project_6_document_class.Limiter.Window.{answers, history_of, empty}
use project_6_document_class.Watcher
use project_6_document_class.Watcher.{
  Watcher as State, Remote, Services, Poll, process_file, process_files, poll, run, reject_reason,
  text_in, sftp_download,
}
use project_6_document_class.Watcher.Outcomes
use project_6_document_class.Watcher.Once
use project_6_document_class.Watcher.Once.{jobs, restart, poll_of}
use project_6_document_class.Upload.{UploadFile, Site, accepted, http_exception, upload_documents}
use project_6_document_class.Upload.Outcomes as Uploads
use project_6_document_class.BatchService.{create_batch}
use project_6_document_class.Casbin.{load_policy, enforce, policy_csv}
use project_6_document_class.Routers

abbrev start : State
start = record { seen = []; bucket = []; queue = [] }

abbrev env : Env
env = record {
  uuid4 = λ n. "id";
  now = λ n. n;
  pwd_hash = λ n plain. plain;
  pwd_verify = λ plain hashed. some (plain == hashed);
}

abbrev empty_world : World
empty_world = record {
  db = record { users = []; batches = []; predictions = []; audit_logs = [] };
  deleted = [];
  draws = 0;
}

-- Six logins of one client within a second, and one of another.
abbrev login : String → ℕ → Limiter.Request
login ip now = record { path = "/auth/jwt/login"; host = some ip; now = now }

abbrev logins : List Limiter.Request
logins =
    login "a" 1
    ∷ login "a" 2
    ∷ login "b" 2
    ∷ login "a" 3
    ∷ login "a" 4
    ∷ login "a" 5
    ∷ login "a" 6
    ∷ []

logins-Ordered : Window.Ordered 0 logins
logins-Ordered = (
  omega arith,
  (omega arith, (omega arith, (omega arith, (omega arith, (omega arith, (omega arith, tt)))))),
)

window_bound_example : length (recent 7 (history_of "a" logins)) ≤ login_max
window_bound_example = Window.window_bound "a" logins 7 logins-Ordered (omega arith)

refused_iff_full_example :
    ((login_rate_limit (login "a" 7) (answers logins empty).1).0 ≡ too_many)
    ↔ (login_max ≤ length (recent 7 (history_of "a" logins)))
refused_iff_full_example =
    Window.refused_iff_full logins (login "a" 7) logins-Ordered (omega arith) refl

-- All services answer; the file has one byte.
abbrev all_up : Services
all_up = record { stat_ok = true; put_ok = true; enqueue_ok = true }

abbrev scan : Remote
scan = record { connected = true; st_size = some 1; content = 7 ∷ [] }

abbrev huge : Remote
huge = record { connected = true; st_size = some 200000000; content = 7 ∷ [] }

abbrev down : Services
down = record { stat_ok = true; put_ok = false; enqueue_ok = true }

process_file_queue_example :
    let w' = process_file "a.tif" "b" "r" all_up scan start in
    (w'.queue ≡ [])
    ⊎ ((w'.queue
          ≡ []
            ++ record { batch_id = "b"; blob_key = original_key "b" "a.tif"; request_id = "r" }
              ∷ [])
        × (reject_reason "a.tif" scan.content ≡ none)
        × (get_object (original_key "b" "a.tif") w'.bucket ≡ some scan.content)
        × (text_in "a.tif" w'.seen ≡ true))
process_file_queue_example = Outcomes.process_file_queue "a.tif" "b" "r" all_up scan start

still_unseen : text_in "a.tif" (process_file "a.tif" "b" "r" down scan start).seen ≡ false
unfolding process_file reject_reason sftp_download is_valid_extension suffix Blob.exists
still_unseen = refl

process_file_retry_example : process_file "a.tif" "b" "r" down scan start ≡ start
process_file_retry_example =
    Outcomes.process_file_retry "a.tif" "b" "r" down scan start still_unseen

abbrev polls : List Poll
polls = poll_of "a.tif" "b" "r" down scan ∷ poll_of "a.tif" "c" "r" all_up scan ∷ []

-- A process that starts over a queue with a job for the file.
abbrev earlier : State
earlier = record start {
  queue = record { batch_id = "a"; blob_key = original_key "a" "a.tif"; request_id = "q" } ∷ [];
}

at_most_one_job_example : jobs "a.tif" (run polls earlier) ≤ jobs "a.tif" earlier + 1
at_most_one_job_example =
    Once.at_most_one_job polls "a.tif" earlier refl ((refl, tt), ((refl, tt), tt))

scan_valid : reject_reason "a.tif" scan.content ≡ none
unfolding reject_reason is_valid_extension suffix
scan_valid = refl

scan_loads : sftp_download scan ≡ some scan.content
unfolding sftp_download
scan_loads = refl

abbrev first_life : State
first_life = run polls start

new_key_absent : Blob.exists true (original_key "d" "a.tif") first_life.bucket ≡ false
unfolding run poll process_file process_files reject_reason sftp_download is_valid_extension suffix
    original_key Blob.exists Watcher.list_new_files
new_key_absent = refl

restart_queues_again_example :
    jobs "a.tif" (poll (poll_of "a.tif" "d" "r" all_up scan) (restart first_life))
    ≡ jobs "a.tif" first_life + 1
restart_queues_again_example =
    Once.restart_queues_again "a.tif" "d" "r" all_up scan first_life new_key_absent scan_loads
      scan_valid (omega arith) refl refl

abbrev rae : User
rae = record { id = "rae"; email = "rae"; role = reviewer; is_active = true; created_at = 0 }

abbrev decide : Routers.Enforcer
decide = enforce (load_policy policy_csv [])

-- One scan of one byte, by a reviewer, while MinIO and Redis answer.
abbrev part : UploadFile
part = record { filename = some "a.tif"; content = 7 ∷ []; put_ok = true; job_id = some "j" }

abbrev rae_world : World
rae_world = record empty_world {
  db = record empty_world.db {
    users =
        record {
          id = "rae";
          email = "rae";
          hashed_password = "";
          role = reviewer;
          is_active = true;
          created_at = 0;
          updated_at = 0;
        }
        ∷ [];
  };
}

abbrev site : Site
site = record { world = rae_world; bucket = []; queue = [] }

part_accepted :
    (upload_documents env decide (part ∷ []) rae site).0
    ≡ accepted "id" 1 "id"
        (record { filename = "a.tif"; blob_key = original_key "id" "a.tif"; job_id = "j" } ∷ [])
unfolding upload_documents rsplit_extension is_valid_extension exists create_batch load_policy
part_accepted = refl

upload_accepted_example :
    All Uploads.IsAcceptable (part ∷ [])
    × (◌≡◌ {A = ℕ} 1 1)
    × (◌≡◌ {A = ℕ} 1 1)
    × ((upload_documents env decide (part ∷ []) rae site).1.queue
        ≡ [] ++ map (Uploads.job_of "id" "id") (part ∷ []))
upload_accepted_example = Uploads.upload_accepted env decide (part ∷ []) rae site part_accepted

abbrev blank : UploadFile
blank = record part { content = [] }

blank_refused :
    (upload_documents env decide (part ∷ blank ∷ []) rae site).0
    ≡ http_exception 422 "'a.tif' is empty."
unfolding upload_documents rsplit_extension is_valid_extension exists load_policy
blank_refused = refl

upload_refused_example : (upload_documents env decide (part ∷ blank ∷ []) rae site).1 ≡ site
upload_refused_example =
    Uploads.upload_refused env decide (part ∷ blank ∷ []) rae site blank_refused
