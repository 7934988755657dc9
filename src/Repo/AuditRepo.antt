-- ===== src/Repo/AuditRepo.antt =====
-- app/repositories/audit_repo.py.
use project_6_document_class.Base.{
  ℕ, String, Bool, true, not, ◌==◌, ◌||◌, List, [], ◌∷◌, ◌++◌, Option, none, some, take, select,
  exists,
}
use project_6_document_class.Domain.{AuditLogEntry, Json}
use project_6_document_class.Db.{UserRow}
use project_6_document_class.App.{
  Env, App, integrity_error, pure, gets, modify, draw, raise_if, ◌>>=◌, ◌>>◌,
}
use project_6_document_class.Repo.UserRepo
use project_6_document_class.Repo.OrderBy.{OrderBy}

-- The foreign key `actor_id`, which may be null.
abbrev pub is_known : Option String → List UserRow → Bool
is_known none users = true
is_known (some a) users = exists (UserRepo.has_id a) users

abbrev pub has_id : String → AuditLogEntry → Bool
has_id id e = e.id == id

-- The INSERT of an entry, under the primary key of the table and the foreign key.
unfoldable pub add_entry : AuditLogEntry → App Unit
add_entry row = do
  logs ← gets (λ w. w.db.audit_logs)
  users ← gets (λ w. w.db.users)
  raise_if (exists (has_id row.id) logs || not (is_known row.actor_id users)) integrity_error
  modify (λ db. record db { audit_logs = db.audit_logs ++ row ∷ [] })

module _ (env : Env) where
  -- The column's `server_default` gives the time.
  unfoldable pub create : Option String → String → String → List (String × Json) → App String
  unfolding add_entry
  create actor_id action target details = do
    log_id ← draw env.uuid4
    now ← draw env.now
    add_entry (record {
      id = log_id;
      actor_id = actor_id;
      action = action;
      target = target;
      details = details;
      timestamp = now;
    })
    pure log_id

module _ (order : OrderBy {A = AuditLogEntry} (λ e. e.timestamp)) where
  abbrev newest : (AuditLogEntry → Bool) → ℕ → App (List AuditLogEntry)
  newest p limit = gets (λ w. take limit (order.desc (select p w.db.audit_logs)))

  unfoldable pub get_by_actor : String → ℕ → App (List AuditLogEntry)
  get_by_actor actor_id = newest (UserRepo.is_by actor_id)

  unfoldable pub get_by_action : String → ℕ → App (List AuditLogEntry)
  get_by_action action = newest (λ e. e.action == action)

  unfoldable pub get_by_target : String → ℕ → App (List AuditLogEntry)
  get_by_target target = newest (λ e. e.target == target)

  unfoldable pub list_recent : ℕ → App (List AuditLogEntry)
  list_recent limit = gets (λ w. take limit (order.desc w.db.audit_logs))
