-- ===== src/Watcher/Once.antt =====
-- How often a file is queued.
use text.Mathlib.TextLemmas.{append_cancel_left}
use Prim.Native.String.{◌++◌ as ◌+++◌}
use project_6_document_class.Base.{
  ℕ, ◌+◌, ◌≤◌, ◌≡◌, ◌≢◌, refl, String, Bool, true, false, not, ◌==◌, eq_iff, eq_refl, List, [], ◌∷◌,
  Option, none, some, length, arith, inl, inr, if◌then◌else◌, count, select, All, Bool-cases,
}
use project_6_document_class.Base.RowLaws.{count-append}
use project_6_document_class.Blob.{max_file_bytes, original_key, exists}
use project_6_document_class.Watcher.{
  Job, Watcher, Remote, Services, Poll, text_in, sftp_download, reject_reason, process_file,
  process_files, list_new_files, poll, run, on_batch,
}
use project_6_document_class.Watcher.Outcomes.{process_file_queue, process_file_others}

original_key_inj : (b f g : String) → original_key b f ≡ original_key b g → f ≡ g
unfolding original_key
original_key_inj b f g h = append_cancel_left ("batches/" +++ (b +++ "/original/")) f g h

-- The jobs for the file `f`, of any batch.
abbrev pub is_job_of : String → Job → Bool
is_job_of f j = j.blob_key == original_key j.batch_id f

abbrev pub jobs : String → Watcher → ℕ
jobs f w = count (is_job_of f) w.queue

-- A file has at most the jobs from before, and one more if it is seen.
record Once (before : String → ℕ) (w : Watcher) : Type 0 where
  at : (f : String) → jobs f w ≤ before f + (if text_in f w.seen then 1 else 0)

count_one : (q : Job → Bool) (j : Job) → count q (j ∷ []) ≤ 1
unfolding count
count_one q j = ground arith

module _ (f b r : String) (sv : Services) (remote : Remote) (w : Watcher) where
  abbrev job : Job
  job = record { batch_id = b; blob_key = original_key b f; request_id = r }

  not_job_of : (g : String) → g ≢ f → count (is_job_of g) (job ∷ []) ≡ 0
  unfolding count
  not_job_of g ne =
      ground (arith, eq_iff (original_key b f) (original_key b g), original_key_inj b g f)

  process_file-Once :
      {before : String → ℕ}
      → text_in f w.seen ≡ false
      → Once before w
      → Once before (process_file f b r sv remote w)
  process_file-Once unseen once = record {
    at = λ g. elim (process_file_queue f b r sv remote w) [
      | inl same ↦ rw same (elim (Bool-cases (g == f)) [
        | inl e ↦ rw ((eq_iff g f).0 e) (ground (arith, once.at f))
        | inr ne ↦
            rw (process_file_others f b r sv remote w g (λ p. cc ((eq_iff g f).1 p))) (once.at g)
      ])
      | inr (added, _, _, seen) ↦
          rw (added, count-append)
            (elim (Bool-cases (g == f)) [
              | inl e ↦
                  rw ((eq_iff g f).0 e, seen)
                    (ground (arith, once.at f, count_one (is_job_of f) job))
              | inr ne ↦
                  rw
                    (
                      not_job_of g (λ p. cc ((eq_iff g f).1 p)),
                      process_file_others f b r sv remote w g (λ p. cc ((eq_iff g f).1 p)),
                    )
                    (omega (arith, once.at g))
            ])
    ];
  }

-- The names of a directory are distinct.
abbrev pub Distinct : List String → Type 0
Distinct [] = Unit
Distinct (f ∷ fs) = (text_in f fs ≡ false) × Distinct fs

abbrev Unseen : Watcher → List String → Type 0
Unseen w fs = All (λ f. text_in f w.seen ≡ false) fs

process_file-Unseen :
    (f b r : String) (sv : Services) (remote : Remote) (w : Watcher) (fs : List String)
    → text_in f fs ≡ false
    → Unseen w fs
    → Unseen (process_file f b r sv remote w) fs
process_file-Unseen f b r sv remote w [] h u = tt
process_file-Unseen f b r sv remote w (g ∷ gs) h u = (
  rw (process_file_others f b r sv remote w g (λ p. ground (arith, eq_iff f g))) u.0,
  process_file-Unseen f b r sv remote w gs (ground arith) u.1,
)

process_files-Once :
    {before : String → ℕ} (p : Poll) (b : String) (fs : List String) (w : Watcher)
    → Distinct fs
    → Unseen w fs
    → Once before w
    → Once before (process_files p b fs w)
unfolding process_files
process_files-Once p b [] w d u once = once
process_files-Once p b (f ∷ fs) w d u once =
    process_files-Once p b fs (process_file f b p.request_id (p.services f) (p.remote f) w) d.1
      (process_file-Unseen f b p.request_id (p.services f) (p.remote f) w fs d.0 u.1)
      (process_file-Once f b p.request_id (p.services f) (p.remote f) w u.0 once)

text_in-select :
    (q : String → Bool) (f : String) (fs : List String)
    → text_in f fs ≡ false
    → text_in f (select q fs) ≡ false
unfolding select
text_in-select q f [] h = refl
text_in-select q f (g ∷ gs) h = ground (arith, text_in-select q f gs)

Distinct-select : (q : String → Bool) (fs : List String) → Distinct fs → Distinct (select q fs)
unfolding select
Distinct-select q [] d = tt
Distinct-select q (f ∷ fs) d = ground (arith, text_in-select q f fs d.0, Distinct-select q fs d.1)

Unseen-select :
    (w : Watcher) (fs : List String) → Unseen w (select (λ f. not (text_in f w.seen)) fs)
unfolding select
Unseen-select w [] = tt
Unseen-select w (f ∷ fs) = ground (arith, Unseen-select w fs)

abbrev pub IsListing : Option (List String) → Type 0
IsListing none = Unit
IsListing (some entries) = Distinct entries

poll_files :
    {before : String → ℕ} (p : Poll) (fs : List String) (w : Watcher)
    → Distinct fs
    → Unseen w fs
    → Once before w
    → Once before (elim fs [ [] ↦ w | g ∷ gs ↦ on_batch p (g ∷ gs) p.batch w ])
poll_files {before = before} p [] w d u once = once
poll_files {before = before} p (f ∷ fs) w d u once = on_batch_case p.batch
  where
    on_batch_case : (b : Option String) → Once before (on_batch p (f ∷ fs) b w)
    on_batch_case none = once
    on_batch_case (some b) = process_files-Once p b (f ∷ fs) w d u once

list_new_files_lem :
    (l : Option (List String)) (w : Watcher)
    → IsListing l
    → Distinct (list_new_files l w) × Unseen w (list_new_files l w)
unfolding list_new_files
list_new_files_lem none w d = (tt, tt)
list_new_files_lem (some entries) w d = (Distinct-select _ entries d, Unseen-select w entries)

poll-Once :
    {before : String → ℕ} (p : Poll) (w : Watcher)
    → IsListing p.listing
    → Once before w
    → Once before (poll p w)
unfolding poll
poll-Once p w d once =
    let l = list_new_files_lem p.listing w d in
    poll_files p (list_new_files p.listing w) w l.0 l.1 once

run-Once :
    {before : String → ℕ} (ps : List Poll) (w : Watcher)
    → All (λ p. IsListing p.listing) ps
    → Once before w
    → Once before (run ps w)
unfolding run
run-Once [] w d once = once
run-Once (p ∷ ps) w d once = run-Once ps (poll p w) d.1 (poll-Once p w d.0 once)

-- If every listing of the directory has distinct names, then in the life of a process that starts
-- with no name seen, over whatever bucket and queue, a file gets at most one job more than it
-- had, whatever the polls list and whatever fails.
pub at_most_one_job :
    (ps : List Poll) (f : String) (w : Watcher)
    → w.seen ≡ []
    → All (λ p. IsListing p.listing) ps
    → jobs f (run ps w) ≤ jobs f w + 1
at_most_one_job ps f w fresh d =
    ground
      (arith, (run-Once {before = λ g. jobs g w} ps w d (record { at = λ g. omega arith })).at f)

-- A restart: `_seen` is empty, the stores stay.
abbrev pub restart : Watcher → Watcher
restart w = record w { seen = [] }

-- A poll that finds one file.
abbrev pub poll_of : String → String → String → Services → Remote → Poll
poll_of f b r sv remote = record {
  listing = some (f ∷ []);
  request_id = r;
  batch = some b;
  remote = λ _. remote;
  services = λ _. sv;
}

module _ (f b r : String) (sv : Services) (remote : Remote) (w : Watcher) where
  -- After a restart, if one file is listed, the services answer, the file loads and passes the
  -- validation, and nothing is stored under its key in the new batch, then the poll adds one more
  -- job for that file, whatever jobs the file had before the restart.
  pub restart_queues_again :
      exists sv.stat_ok (original_key b f) w.bucket ≡ false
      → sftp_download remote ≡ some remote.content
      → reject_reason f remote.content ≡ none
      → length remote.content ≤ max_file_bytes
      → sv.put_ok ≡ true
      → sv.enqueue_ok ≡ true
      → jobs f (poll (poll_of f b r sv remote) (restart w)) ≡ jobs f w + 1
  unfolding poll list_new_files process_files process_file count select
  restart_queues_again absent got valid small put enq = ground (
    arith,
    eq_refl (original_key b f),
    count-append (is_job_of f) w.queue (job f b r sv remote w ∷ []),
  )
