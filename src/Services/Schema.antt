-- ===== src/Services/Schema.antt =====
-- The constraints of app/db/models.py, which every writing call keeps.
use project_6_document_class.Base.{
  ℕ, ◌≡◌, refl, ◌∙◌, String, true, false, List, [], ◌∷◌, ◌++◌, update, exists, All-append,
}
use project_6_document_class.Base.RowLaws.{exists-append_of_left, exists-update}
use project_6_document_class.Base.Unique.{count-update_same, All-weaken, All-update_to}
use project_6_document_class.Domain.{BatchStatus, Prediction, AuditLogEntry}
use project_6_document_class.Db.{Db, BatchRow}
use project_6_document_class.App.{Env, World}
use project_6_document_class.Repo.BatchRepo
use project_6_document_class.Repo.PredictionRepo
use project_6_document_class.Services.{Write, perform}
use project_6_document_class.Services.Change.{
  Change, IsNew, nothing, user_created, role_changed, user_deleted, batch_created, batch_moved,
  prediction_saved, relabelled, perform-Change,
}
use project_6_document_class.Services.Constraints.{IsSchema, count-new_key, new_entry}
use project_6_document_class.Services.Accounts.{
  user_created-IsSchema, role_changed-IsSchema, user_deleted-IsSchema,
}

module _ {db : Db} (s : IsSchema db) where
  batch_created-IsSchema :
      (row : BatchRow) (e : AuditLogEntry)
      → exists (BatchRepo.has_id row.id) db.batches ≡ false
      → IsNew db.users db.audit_logs e
      → IsSchema
          (record db { batches = db.batches ++ row ∷ []; audit_logs = db.audit_logs ++ e ∷ [] })
  batch_created-IsSchema row e free new =
      let n = new_entry s db.users e new s.actor_of in
      record {
        user_ids = s.user_ids;
        emails = s.emails;
        batch_ids = count-new_key (λ b. b.id) db.batches row s.batch_ids free;
        prediction_ids = s.prediction_ids;
        entry_ids = n.0;
        batch_of =
            All-weaken (λ p. exists (BatchRepo.has_id p.batch_id) db.batches ≡ true)
              (λ p. exists (BatchRepo.has_id p.batch_id) (db.batches ++ row ∷ []) ≡ true)
              db.predictions
              (λ p. exists-append_of_left (BatchRepo.has_id p.batch_id) db.batches (row ∷ []))
              s.batch_of;
        actor_of = n.1;
      }

  batch_moved-IsSchema :
      (id : String) (status : BatchStatus) (now : ℕ) (e : AuditLogEntry)
      → IsNew db.users db.audit_logs e
      → IsSchema (record db {
        batches = update (BatchRepo.has_id id) (BatchRepo.with_status status now) db.batches;
        audit_logs = db.audit_logs ++ e ∷ [];
      })
  batch_moved-IsSchema id status now e new =
      let set = BatchRepo.with_status status now in
      let n = new_entry s db.users e new s.actor_of in
      record {
        user_ids = s.user_ids;
        emails = s.emails;
        batch_ids = λ i.
            rw
              (count-update_same (BatchRepo.has_id i) (BatchRepo.has_id id) set db.batches
                (λ b. refl))
              (s.batch_ids i);
        prediction_ids = s.prediction_ids;
        entry_ids = n.0;
        batch_of =
            All-weaken (λ p. exists (BatchRepo.has_id p.batch_id) db.batches ≡ true)
              (λ p.
                exists (BatchRepo.has_id p.batch_id) (update (BatchRepo.has_id id) set db.batches)
                ≡ true)
              db.predictions
              (λ p k.
                exists-update (BatchRepo.has_id p.batch_id) (BatchRepo.has_id id) set db.batches
                  (λ b. refl)
                ∙ k)
              s.batch_of;
        actor_of = n.1;
      }

  prediction_saved-IsSchema :
      (row : Prediction)
      → exists (PredictionRepo.has_id row.id) db.predictions ≡ false
      → exists (BatchRepo.has_id row.batch_id) db.batches ≡ true
      → IsSchema (record db { predictions = db.predictions ++ row ∷ [] })
  prediction_saved-IsSchema row free known = record {
    user_ids = s.user_ids;
    emails = s.emails;
    batch_ids = s.batch_ids;
    prediction_ids = count-new_key (λ p. p.id) db.predictions row s.prediction_ids free;
    entry_ids = s.entry_ids;
    batch_of =
        All-append (λ p. exists (BatchRepo.has_id p.batch_id) db.batches ≡ true) db.predictions
          (row ∷ []) s.batch_of (known, tt);
    actor_of = s.actor_of;
  }

  relabelled-IsSchema :
      (id c : String) (e : AuditLogEntry)
      → IsNew db.users db.audit_logs e
      → IsSchema (record db {
        predictions =
            update (PredictionRepo.has_id id) (PredictionRepo.with_class c) db.predictions;
        audit_logs = db.audit_logs ++ e ∷ [];
      })
  relabelled-IsSchema id c e new =
      let n = new_entry s db.users e new s.actor_of in
      record {
        user_ids = s.user_ids;
        emails = s.emails;
        batch_ids = s.batch_ids;
        prediction_ids = λ i.
            rw
              (count-update_same (PredictionRepo.has_id i) (PredictionRepo.has_id id)
                (PredictionRepo.with_class c) db.predictions (λ p. refl))
              (s.prediction_ids i);
        entry_ids = n.0;
        batch_of =
            All-update_to (λ p. exists (BatchRepo.has_id p.batch_id) db.batches ≡ true)
              (λ p. exists (BatchRepo.has_id p.batch_id) db.batches ≡ true) _ _ db.predictions
              (λ p h k. k) (λ p h k. k) s.batch_of;
        actor_of = n.1;
      }

Change-IsSchema :
    {db db' : Db} {keys : List String} → Change db db' keys → IsSchema db → IsSchema db'
Change-IsSchema (nothing e) s = rw e s
Change-IsSchema (user_created row e free new d _) s = rw d (user_created-IsSchema s row e free new)
Change-IsSchema (role_changed id role now e new d _) s =
    rw d (role_changed-IsSchema s id role now e new)
Change-IsSchema (user_deleted id x e _ new d _) s = rw d (user_deleted-IsSchema s id e new)
Change-IsSchema (batch_created row e free new d _) s =
    rw d (batch_created-IsSchema s row e free new)
Change-IsSchema (batch_moved id status now e new d _) s =
    rw d (batch_moved-IsSchema s id status now e new)
Change-IsSchema (prediction_saved row free known d _) s =
    rw d (prediction_saved-IsSchema s row free known)
Change-IsSchema (relabelled id c x e _ new d _) s = rw d (relabelled-IsSchema s id c e new)

-- The calls one after another.
pub perform_all : Env → List Write → World → World
perform_all env [] w = w
perform_all env (wr ∷ wrs) w = perform_all env wrs (perform env wr w)

-- If ids and e-mails are unique, every prediction belongs to a batch that is there and every
-- named actor of the log is a user that is there, then this stays so through any sequence of the
-- writing calls of the services, whatever their arguments are and whichever of them fail.
pub perform_all-IsSchema :
    (env : Env) (wrs : List Write) (w : World) → IsSchema w.db → IsSchema (perform_all env wrs w).db
unfolding perform_all
perform_all-IsSchema env [] w s = s
perform_all-IsSchema env (wr ∷ wrs) w s =
    perform_all-IsSchema env wrs (perform env wr w) (Change-IsSchema (perform-Change env w wr) s)
