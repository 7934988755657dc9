-- ===== src/Services/Accounts.antt =====
-- The constraints of the tables under the changes of the users.
use project_6_document_class.Base.{
  ℕ, ◌≡◌, refl, ◌∙◌, String, true, false, ◌==◌, eq_iff, [], ◌∷◌, ◌++◌, Option, none, some, arith,
  update, delete_where, exists, ◌||◌,
}
use project_6_document_class.Base.RowLaws.{exists-append_of_left, exists-update}
use project_6_document_class.Base.Unique.{
  count-update_same, count-delete_where-le, exists-or_left, exists-or_right, exists-delete_where_ne,
  All-update_to,
}
use project_6_document_class.Domain.{Role, AuditLogEntry}
use project_6_document_class.Db.{Db, UserRow}
use project_6_document_class.Repo.UserRepo
use project_6_document_class.Repo.AuditRepo
use project_6_document_class.Services.Change.{IsNew}
use project_6_document_class.Services.Constraints.{
  IsSchema, is_known-mono, count-new_key, new_entry,
}

module _ {db : Db} (s : IsSchema db) where
  pub user_created-IsSchema :
      (row : UserRow) (e : AuditLogEntry)
      → exists (λ u. UserRepo.has_id row.id u || UserRepo.has_email row.email u) db.users ≡ false
      → IsNew (db.users ++ row ∷ []) db.audit_logs e
      → IsSchema (record db { users = db.users ++ row ∷ []; audit_logs = db.audit_logs ++ e ∷ [] })
  user_created-IsSchema row e free new =
      let n = new_entry s (db.users ++ row ∷ []) e new (
        is_known-mono db.users (db.users ++ row ∷ [])
          (λ a. exists-append_of_left (UserRepo.has_id a) db.users (row ∷ [])) db.audit_logs
          s.actor_of) in
      record {
        user_ids =
            count-new_key (λ u. u.id) db.users row s.user_ids
              (exists-or_left (UserRepo.has_id row.id) (UserRepo.has_email row.email) db.users
                free);
        emails =
            count-new_key (λ u. u.email) db.users row s.emails
              (exists-or_right (UserRepo.has_id row.id) (UserRepo.has_email row.email) db.users
                free);
        batch_ids = s.batch_ids;
        prediction_ids = s.prediction_ids;
        entry_ids = n.0;
        batch_of = s.batch_of;
        actor_of = n.1;
      }

  pub role_changed-IsSchema :
      (id : String) (role : Role) (now : ℕ) (e : AuditLogEntry)
      → let users' = update (UserRepo.has_id id) (UserRepo.with_role role now) db.users in
        IsNew users' db.audit_logs e
        → IsSchema (record db { users = users'; audit_logs = db.audit_logs ++ e ∷ [] })
  role_changed-IsSchema id role now e new =
      let set = UserRepo.with_role role now in
      let users' = update (UserRepo.has_id id) set db.users in
      let n = new_entry s users' e new (
        is_known-mono db.users users'
          (λ a k.
            exists-update (UserRepo.has_id a) (UserRepo.has_id id) set db.users (λ u. refl) ∙ k)
          db.audit_logs s.actor_of) in
      record {
        user_ids = λ i.
            rw (count-update_same (UserRepo.has_id i) (UserRepo.has_id id) set db.users (λ u. refl))
              (s.user_ids i);
        emails = λ m.
            rw
              (count-update_same (UserRepo.has_email m) (UserRepo.has_id id) set db.users
                (λ u. refl))
              (s.emails m);
        batch_ids = s.batch_ids;
        prediction_ids = s.prediction_ids;
        entry_ids = n.0;
        batch_of = s.batch_of;
        actor_of = n.1;
      }

  -- The entries of the deleted user forget their actor; the other actors stay.
  pub user_deleted-IsSchema :
      (id : String) (e : AuditLogEntry)
      → IsNew db.users db.audit_logs e
      → IsSchema (
          UserRepo.forget_actor id (record db {
            users = delete_where (UserRepo.has_id id) db.users;
            audit_logs = db.audit_logs ++ e ∷ [];
          }))
  user_deleted-IsSchema id e new =
      let n = new_entry s db.users e new s.actor_of in
      record {
        user_ids = λ i. omega (
          arith,
          count-delete_where-le (UserRepo.has_id i) (UserRepo.has_id id) db.users,
          s.user_ids i,
        );
        emails = λ m. omega (
          arith,
          count-delete_where-le (UserRepo.has_email m) (UserRepo.has_id id) db.users,
          s.emails m,
        );
        batch_ids = s.batch_ids;
        prediction_ids = s.prediction_ids;
        entry_ids = λ i.
            rw
              (count-update_same (AuditRepo.has_id i) (UserRepo.is_by id) UserRepo.without_actor
                (db.audit_logs ++ e ∷ []) (λ x. refl))
              (n.0 i);
        batch_of = s.batch_of;
        actor_of =
            All-update_to (λ x. AuditRepo.is_known x.actor_id db.users ≡ true)
              (λ x.
                AuditRepo.is_known x.actor_id (delete_where (UserRepo.has_id id) db.users) ≡ true)
              _ _ (db.audit_logs ++ e ∷ []) (λ x h k. refl) (λ x. still x.actor_id) n.1;
      }
    where
      still :
          (a : Option String)
          → elim a [ none ↦ false | some b ↦ b == id ] ≡ false
          → AuditRepo.is_known a db.users ≡ true
          → AuditRepo.is_known a (delete_where (UserRepo.has_id id) db.users) ≡ true
      still none h k = refl
      still (some b) h k =
          exists-delete_where_ne (UserRepo.has_id b) (UserRepo.has_id id) db.users
            (λ u p. ground (arith, eq_iff u.id id, eq_iff u.id b, eq_iff b id))
          ∙ k
