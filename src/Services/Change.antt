-- ===== src/Services/Change.antt =====
-- What a writing call does to the tables and to the cache: one of eight changes.
use project_6_document_class.Base.{
  ℕ, ◌+◌, ◌≡◌, true, false, ◌||◌, String, List, [], ◌∷◌, ◌++◌, Option, some, arith, select, update,
  delete_where, exists, rows_cases, inl, inr,
}
use project_6_document_class.Base.{Option-cases, subst, sym}
use project_6_document_class.Base.RowLaws.{count_of_select}
use project_6_document_class.Domain.{
  Role, BatchStatus, Prediction, AuditLogEntry, Batch, User, UserCreate, UserRoleUpdate,
  BatchCreate, PredictionCreate, PredictionRelabel, Json, str, num, role_value, pending,
}
use project_6_document_class.Db.{Db, UserRow, BatchRow}
use project_6_document_class.App.{Env, World, App}
use project_6_document_class.App.Laws.{Result-cases}
use project_6_document_class.Cache.{
  users_list_key, batches_list_key, predictions_recent_key, user_me_key, batch_key,
  predictions_batch_key,
}
use project_6_document_class.Repo.UserRepo
use project_6_document_class.Repo.BatchRepo
use project_6_document_class.Repo.PredictionRepo
use project_6_document_class.Repo.AuditRepo
use project_6_document_class.UserService.{user_target, create_user, change_role, delete_user}
use project_6_document_class.BatchService.{
  create_batch, transition, or_default, batch_target, actor_id,
}
use project_6_document_class.BatchService.Machine.{goal, sources, mark-eq-transition}
use project_6_document_class.BatchService.Transitions.{move_entry}
use project_6_document_class.PredictionService.Saves.{saved}
use project_6_document_class.PredictionService.{prediction_target, save_prediction, relabel}
use project_6_document_class.Services.{
  Write, new_user, set_role, drop_user, new_batch, mark_batch, save, set_label, perform,
}

-- An entry that the two constraints of the log's table admit.
abbrev pub IsNew : List UserRow → List AuditLogEntry → AuditLogEntry → Type 0
IsNew users logs e =
    (exists (AuditRepo.has_id e.id) logs ≡ false) × (AuditRepo.is_known e.actor_id users ≡ true)

-- From the tables `db` to `db'`, with the keys `keys` deleted from the cache.
pub data Change (db db' : Db) (keys : List String) : Type 0 where
  nothing : db' ≡ db → Change db db' keys
  user_created :
      (row : UserRow) (e : AuditLogEntry)
      → exists (λ u. UserRepo.has_id row.id u || UserRepo.has_email row.email u) db.users ≡ false
      → IsNew (db.users ++ row ∷ []) db.audit_logs e
      → db' ≡ record db { users = db.users ++ row ∷ []; audit_logs = db.audit_logs ++ e ∷ [] }
      → keys ≡ users_list_key ∷ []
      → Change db db' keys
  role_changed :
      (id : String) (role : Role) (now : ℕ) (e : AuditLogEntry)
      → IsNew (update (UserRepo.has_id id) (UserRepo.with_role role now) db.users) db.audit_logs e
      → db' ≡ record db {
        users = update (UserRepo.has_id id) (UserRepo.with_role role now) db.users;
        audit_logs = db.audit_logs ++ e ∷ [];
      }
      → keys ≡ user_me_key id ∷ users_list_key ∷ []
      → Change db db' keys
  user_deleted :
      (id : String) (x : UserRow) (e : AuditLogEntry)
      → select (UserRepo.has_id id) db.users ≡ x ∷ []
      → IsNew db.users db.audit_logs e
      → db'
        ≡ UserRepo.forget_actor id (record db {
          users = delete_where (UserRepo.has_id id) db.users;
          audit_logs = db.audit_logs ++ e ∷ [];
        })
      → keys ≡ user_me_key id ∷ users_list_key ∷ []
      → Change db db' keys
  batch_created :
      (row : BatchRow) (e : AuditLogEntry)
      → exists (BatchRepo.has_id row.id) db.batches ≡ false
      → IsNew db.users db.audit_logs e
      → db' ≡ record db { batches = db.batches ++ row ∷ []; audit_logs = db.audit_logs ++ e ∷ [] }
      → keys ≡ batches_list_key ∷ []
      → Change db db' keys
  batch_moved :
      (id : String) (status : BatchStatus) (now : ℕ) (e : AuditLogEntry)
      → IsNew db.users db.audit_logs e
      → db' ≡ record db {
        batches = update (BatchRepo.has_id id) (BatchRepo.with_status status now) db.batches;
        audit_logs = db.audit_logs ++ e ∷ [];
      }
      → keys ≡ batch_key id ∷ batches_list_key ∷ []
      → Change db db' keys
  prediction_saved :
      (row : Prediction)
      → exists (PredictionRepo.has_id row.id) db.predictions ≡ false
      → exists (BatchRepo.has_id row.batch_id) db.batches ≡ true
      → db' ≡ record db { predictions = db.predictions ++ row ∷ [] }
      → keys
        ≡ predictions_recent_key ∷ batch_key row.batch_id ∷ predictions_batch_key row.batch_id ∷ []
      → Change db db' keys
  relabelled :
      (id c : String) (x : Prediction) (e : AuditLogEntry)
      → select (PredictionRepo.has_id id) db.predictions ≡ x ∷ []
      → IsNew db.users db.audit_logs e
      → db' ≡ record db {
        predictions =
            update (PredictionRepo.has_id id) (PredictionRepo.with_class c) db.predictions;
        audit_logs = db.audit_logs ++ e ∷ [];
      }
      → keys ≡ predictions_recent_key ∷ batch_key x.batch_id ∷ predictions_batch_key x.batch_id ∷ []
      → Change db db' keys

-- The entry that `AuditRepo.create` adds after `n` draws.
abbrev entry : Env → ℕ → Option String → String → String → List (String × Json) → AuditLogEntry
entry env n actor_id action target details = record {
  id = env.uuid4 n;
  actor_id = actor_id;
  action = action;
  target = target;
  details = details;
  timestamp = env.now (n + 1);
}

module _ (env : Env) (w₀ : World) where
  abbrev w : World
  w = record w₀ { deleted = [] }

  abbrev n : ℕ
  n = w₀.draws

  -- What a call of the services does to the state it starts from.
  abbrev Changes : World → Type 0
  Changes w' = Change w₀.db w'.db w'.deleted

  create_user-Change : (form : UserCreate) (actor : User) → Changes (create_user env form actor w).1
  unfolding create_user
  create_user-Change form actor = elim (Result-cases (create_user env form actor w).0) [
    | inr (_, e) ↦ nothing (ground arith)
    | inl (_, e) ↦
        user_created
          (record {
            id = env.uuid4 (n + 1 + 1);
            email = form.email;
            hashed_password = env.pwd_hash n form.password;
            role = form.role;
            is_active = true;
            created_at = env.now (n + 1);
            updated_at = env.now (n + 1);
          })
          (entry env (n + 1 + 1 + 1) (some actor.id) "user_create"
            (user_target (env.uuid4 (n + 1 + 1)))
            (("email", str form.email) ∷ ("role", str (role_value form.role)) ∷ []))
          (ground arith) (ground arith) (ground arith) (ground arith)
  ]

  change_role-Change :
      (id : String) (u : UserRoleUpdate) (actor : User) → Changes (change_role env id u actor w).1
  unfolding change_role
  change_role-Change id u actor = elim (Result-cases (change_role env id u actor w).0) [
    | inr (_, e) ↦ nothing (ground arith)
    | inl (_, e) ↦ elim (rows_cases (select (UserRepo.has_id id) w₀.db.users)) [
      | inl s ↦ absurd (ground (arith, s))
      | inr (inr (x, y, zs, s)) ↦ absurd (ground (arith, s))
      | inr (inl (x, s)) ↦
          role_changed id u.role (env.now n)
            (entry env (n + 1) (some actor.id) "role_change" (user_target id)
              (("old_role", str (role_value x.role)) ∷ ("new_role", str (role_value u.role)) ∷ []))
            (ground (arith, s)) (ground (arith, s)) (ground (arith, s))
    ]
  ]

  delete_user-Change : (id : String) (actor : User) → Changes (delete_user env id actor w).1
  unfolding delete_user
  delete_user-Change id actor = elim (Result-cases (delete_user env id actor w).0) [
    | inr (_, e) ↦ nothing (ground arith)
    | inl (_, e) ↦ elim (rows_cases (select (UserRepo.has_id id) w₀.db.users)) [
      | inl s ↦ absurd (ground (arith, s))
      | inr (inr (x, y, zs, s)) ↦ absurd (ground (arith, s))
      | inr (inl (x, s)) ↦
          user_deleted id x
            (entry env n (some actor.id) "user_deleted" (user_target id)
              (("email", str x.email) ∷ ("role", str (role_value x.role)) ∷ []))
            s (ground (arith, s))
            (ground (arith, s, count_of_select (UserRepo.has_id id) w₀.db.users x))
            (ground (arith, s))
    ]
  ]

  create_batch-Change :
      (form : Option BatchCreate) (actor : Option User) → Changes (create_batch env form actor w).1
  unfolding create_batch
  create_batch-Change form actor = elim (Result-cases (create_batch env form actor w).0) [
    | inr (_, e) ↦ nothing (ground arith)
    | inl (_, e) ↦ elim (Option-cases (or_default form).id) [
      | inl g ↦
          batch_created
            (record {
              id = env.uuid4 n;
              status = pending;
              file_count = (or_default form).file_count;
              created_at = env.now (n + 1);
              updated_at = env.now (n + 1);
            })
            (entry env (n + 1 + 1) (actor_id actor) "batch_created" (batch_target (env.uuid4 n))
              (("file_count", num (or_default form).file_count) ∷ []))
            (ground (arith, g)) (ground (arith, g)) (ground (arith, g)) (ground (arith, g))
      | inr (id, g) ↦
          batch_created
            (record {
              id = id;
              status = pending;
              file_count = (or_default form).file_count;
              created_at = env.now n;
              updated_at = env.now n;
            })
            (entry env (n + 1) (actor_id actor) "batch_created" (batch_target id)
              (("file_count", num (or_default form).file_count) ∷ []))
            (ground (arith, g)) (ground (arith, g)) (ground (arith, g)) (ground (arith, g))
    ]
  ]

  transition-Change :
      (id : String) (new : BatchStatus) (allowed : List BatchStatus)
      → Changes (transition env id new allowed w).1
  unfolding transition
  transition-Change id new allowed = elim (Result-cases (transition env id new allowed w).0) [
    | inr (_, e) ↦ nothing (ground arith)
    | inl (_, e) ↦ elim (rows_cases (select (BatchRepo.has_id id) w₀.db.batches)) [
      | inl s ↦ absurd (ground (arith, s))
      | inr (inr (x, y, zs, s)) ↦ absurd (ground (arith, s))
      | inr (inl (x, s)) ↦
          batch_moved id new (env.now n) (move_entry env n id x.status new) (ground (arith, s))
            (ground (arith, s)) (ground (arith, s))
    ]
  ]

  save_prediction-Change :
      (id : String) (form : PredictionCreate) → Changes (save_prediction env id form w).1
  unfolding save_prediction
  save_prediction-Change id form = elim (Result-cases (save_prediction env id form w).0) [
    | inr (_, e) ↦ nothing (ground arith)
    | inl (_, e) ↦
        prediction_saved (saved env id form w) (ground arith) (ground arith) (ground arith)
          (ground arith)
  ]

  relabel-Change :
      (id : String) (u : PredictionRelabel) (actor : User) → Changes (relabel env id u actor w).1
  unfolding relabel
  relabel-Change id u actor = elim (Result-cases (relabel env id u actor w).0) [
    | inr (_, e) ↦ nothing (ground arith)
    | inl (_, e) ↦ elim (rows_cases (select (PredictionRepo.has_id id) w₀.db.predictions)) [
      | inl s ↦ absurd (ground (arith, s))
      | inr (inr (x, y, zs, s)) ↦ absurd (ground (arith, s))
      | inr (inl (x, s)) ↦
          relabelled id u.relabeled_class x
            (entry env n (some actor.id) "relabel" (prediction_target id)
              (("from", str x.predicted_class) ∷ ("to", str u.relabeled_class) ∷ []))
            s (ground (arith, s)) (ground (arith, s)) (ground (arith, s))
    ]
  ]

  pub perform-Change : (wr : Write) → Changes (perform env wr w₀)
  perform-Change (new_user form actor) = create_user-Change form actor
  perform-Change (set_role id u actor) = change_role-Change id u actor
  perform-Change (drop_user id actor) = delete_user-Change id actor
  perform-Change (new_batch form actor) = create_batch-Change form actor
  perform-Change (mark_batch m id) =
      subst (λ (f : String → App Batch). Changes (f id w).1) (sym (mark-eq-transition env m))
        (transition-Change id (goal m) (sources m))
  perform-Change (save id form) = save_prediction-Change id form
  perform-Change (set_label id u actor) = relabel-Change id u actor
