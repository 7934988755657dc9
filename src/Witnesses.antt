-- ===== src/Witnesses.antt =====
-- Data for the properties at concrete inputs, and the tests of the definitions.
mod Start
mod Delivery
mod Models
mod Drawings
mod Users
mod Batches
mod Predictions
mod Intake
mod Checks
mod Board
mod System
use Prim.Native.String.{◌∷◌ as ◌:::◌}
use Prim.Native.Char.{Char, code}
use text.Mathlib.TextLemmas.{tail-eq_of_cons-eq, head-eq_of_cons-eq}
use project_6_document_class.Base.{
  ℕ, zero, suc, ◌+◌, ◌≤◌, ◌≡◌, ◌≢◌, refl, ap, sym, String, Bool, true, false, ◌==◌, eq_iff, eq_refl,
  List, [], ◌∷◌, ◌++◌, Option, none, some, map, All, select, update, delete_where, count, exists,
  length, arith, ◌↔◌, inl, inr, ◌⊎◌,
}
use project_6_document_class.Domain.{
  Role, admin, reviewer, auditor, User, UserCreate, UserRoleUpdate, BatchStatus, pending,
  processing, done, failed, Batch, Prediction, PredictionCreate, PredictionRelabel,
  must_be_valid_class, text_in,
}
use project_6_document_class.Domain.Ieee.{Double, less}
use project_6_document_class.Db.{Db, UserRow, BatchRow}
use project_6_document_class.App.{Env, World, Error, Result, ok, err}
use project_6_document_class.App.Fresh.{IsFresh}
use project_6_document_class.Repo.UserRepo
use project_6_document_class.Repo.BatchRepo
use project_6_document_class.Repo.PredictionRepo
use project_6_document_class.Repo.AuditRepo
use project_6_document_class.Cache.{
  users_list_key, user_me_key, predictions_recent_key, batch_key, predictions_batch_key,
}
use project_6_document_class.BatchService.Transitions.{moved}
use project_6_document_class.Domain.{str, role_value}
use project_6_document_class.UserService.{user_target}
use project_6_document_class.UserService.{create_user, change_role, delete_user}
use project_6_document_class.UserService.Admins.{HasAdmin}
use project_6_document_class.UserService.Requests
use project_6_document_class.UserService.Requests.{serve, serve-HasAdmin}
use project_6_document_class.UserService.Effects
use project_6_document_class.BatchService.{
  transition, mark_processing, mark_done, mark_failed, batch_target,
}
use project_6_document_class.BatchService.Machine
use project_6_document_class.BatchService.Machine.{
  Reach, Step, Mark, mark, run_marks, to_processing, to_done, to_failed,
}
use project_6_document_class.PredictionService.{relabel}
use project_6_document_class.PredictionService.Relabels
use project_6_document_class.AuditTrail.{replay, calls, create, move}
use project_6_document_class.AuditTrail.Replay.{IsLogged, calls-IsLogged}
use project_6_document_class.Worker.{Job, persist_async}
use project_6_document_class.Worker.Persist.{after_job, persist_async_lem}

-- Ids "", "x", "xx", ...; the clock counts the draws; a hash is the text itself.
unfoldable pub tally : ℕ → String
tally zero = ""
tally (suc n) = "x" ::: tally n

abbrev pub env : Env
env = record {
  uuid4 = tally;
  now = λ n. n;
  pwd_hash = λ n plain. plain;
  pwd_verify = λ plain hashed. some (plain == hashed);
}

pub tally_inj : (m n : ℕ) → tally m ≡ tally n → m ≡ n
unfolding tally
tally_inj zero zero h = refl
tally_inj zero (suc n) h = cc
tally_inj (suc m) zero h = cc
tally_inj (suc m) (suc n) h = ap suc (tally_inj m n (tail-eq_of_cons-eq h))

-- A text that does not begin as the ids do is none of them.
pub ne-tally : (c : Char) (s : String) (n : ℕ) → code c ≢ 120 → ((c ::: s) == tally n) ≡ false
unfolding tally
ne-tally c s zero h =
    ground (arith, eq_iff (c ::: s) "", λ (e : ◌≡◌ {A = String} (c ::: s) ""). absurd {A = ⊥} (cc))
ne-tally c s (suc n) h = ground (
  arith,
  eq_iff (c ::: s) ("x" ::: tally n),
  λ (e : ◌≡◌ {A = String} (c ::: s) ("x" ::: tally n)).
      absurd {A = ⊥} (h (ap code (head-eq_of_cons-eq e))),
)

abbrev pub row : String → Role → UserRow
row id role = record {
  id = id;
  email = id;
  hashed_password = "";
  role = role;
  is_active = true;
  created_at = 0;
  updated_at = 0;
}

abbrev pub person : String → Role → User
person id role = record { id = id; email = id; role = role; is_active = true; created_at = 0 }

abbrev pub batch_row : String → BatchStatus → BatchRow
batch_row id status = record {
  id = id;
  status = status;
  file_count = 2;
  created_at = 0;
  updated_at = 0;
}

-- The double 0.5.
abbrev pub half : Double
half = record { bits = 0x3FE0000000000000 }

abbrev pub prediction : Prediction
prediction = record {
  id = "p";
  batch_id = "b";
  filename = "f.tif";
  blob_key = "k";
  overlay_key = "o";
  predicted_class = "memo";
  confidence = half;
  relabeled_class = none;
  created_at = 0;
}

-- Two admins and a reviewer, one batch of two files, one prediction.
abbrev pub office : World
office = record {
  db = record {
    users = row "ann" admin ∷ row "bob" admin ∷ row "rae" reviewer ∷ [];
    batches = batch_row "b" pending ∷ [];
    predictions = prediction ∷ [];
    audit_logs = [];
  };
  deleted = [];
  draws = 0;
}

abbrev pub to_auditor : UserRoleUpdate
to_auditor = record { role = auditor }

abbrev pub empty_world : World
empty_world = record {
  db = record { users = []; batches = []; predictions = []; audit_logs = [] };
  deleted = [];
  draws = 0;
}

pub found_b : select (BatchRepo.has_id "b") office.db.batches ≡ batch_row "b" pending ∷ []
unfolding select
found_b = refl

abbrev pub rae : User
rae = person "rae" reviewer
