-- ===== src/Pipeline/Ingest.antt =====
-- A poll of the SFTP watcher over the tables: app/infra/sftp_watcher.py with the callback of
-- app/workers/sftp_ingest.py that creates its batch.
pub mod Files
pub mod Polled
use project_6_document_class.Base.{ℕ, String, List, [], ◌∷◌, Option, none, some, length}
use project_6_document_class.App.{Env, World, Result, ok, err}
use project_6_document_class.Upload.{Site}
use project_6_document_class.Watcher.{Watcher, Poll, list_new_files, poll}
use project_6_document_class.Worker.{ingest_create_batch}

abbrev pub id_of : Result String → Option String
id_of (ok id) = some id
id_of (err e) = none

-- The watcher's view of a site.
abbrev pub view : List String → Site → Watcher
view seen s = record { seen = seen; bucket = s.bucket; queue = s.queue }

module _ (env : Env) where
  -- The batch of a poll is the one that the callback creates; the other answers are the poll's.
  abbrev pub with_batch : Poll → List String → Site → Result String × World → List String × Site
  with_batch p seen s (r, w) =
      let v = poll (record p { batch = id_of r }) (view seen s) in
      (v.seen, record { world = w; bucket = v.bucket; queue = v.queue })

  -- `redis` is how many deletions of the callback Redis answers, where not all of them.
  unfoldable pub ingest : Option ℕ → Poll → List String → Site → List String × Site
  unfolding poll list_new_files ingest_create_batch
  ingest redis p seen s = elim (list_new_files p.listing (view seen s)) [
    | [] ↦ (seen, s)
    | f ∷ fs ↦ with_batch p seen s (ingest_create_batch env redis (length (f ∷ fs)) s.world)
  ]
