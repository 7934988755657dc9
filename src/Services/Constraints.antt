-- ===== src/Services/Constraints.antt =====
-- The constraints of app/db/models.py, as they bear on one more row or entry.
use project_6_document_class.Base.{
  ◌≤◌, ◌≡◌, refl, sym, String, true, false, ◌==◌, eq_iff, List, [], ◌∷◌, ◌++◌, Option, none, some,
  count, exists, All, All-append,
}
use project_6_document_class.Base.Unique.{count-append_new, All-weaken}
use project_6_document_class.Domain.{AuditLogEntry}
use project_6_document_class.Db.{Db, UserRow}
use project_6_document_class.Repo.UserRepo
use project_6_document_class.Repo.BatchRepo
use project_6_document_class.Repo.PredictionRepo
use project_6_document_class.Repo.AuditRepo
use project_6_document_class.Services.Change.{IsNew}

-- Primary keys and the e-mail are unique, and the two foreign keys refer to rows that are there.
pub record IsSchema (db : Db) : Type 0 where
  pub user_ids : (id : String) → count (UserRepo.has_id id) db.users ≤ 1
  pub emails : (email : String) → count (UserRepo.has_email email) db.users ≤ 1
  pub batch_ids : (id : String) → count (BatchRepo.has_id id) db.batches ≤ 1
  pub prediction_ids : (id : String) → count (PredictionRepo.has_id id) db.predictions ≤ 1
  pub entry_ids : (id : String) → count (AuditRepo.has_id id) db.audit_logs ≤ 1
  pub batch_of : All (λ p. exists (BatchRepo.has_id p.batch_id) db.batches ≡ true) db.predictions
  pub actor_of : All (λ e. AuditRepo.is_known e.actor_id db.users ≡ true) db.audit_logs

-- A new key is new for the test of any key.
module _ {A : Type 0} (key : A → String) (xs : List A) where
  new_key :
      (k : String) (x : A)
      → exists (λ y. key y == key x) xs ≡ false
      → (key x == k) ≡ true
      → exists (λ y. key y == k) xs ≡ false
  new_key k x h e = rw (sym ((eq_iff (key x) k).0 e)) h

  pub count-new_key :
      (x : A)
      → ((k : String) → count (λ y. key y == k) xs ≤ 1)
      → exists (λ y. key y == key x) xs ≡ false
      → (k : String) → count (λ y. key y == k) (xs ++ x ∷ []) ≤ 1
  count-new_key x h new k = count-append_new (λ y. key y == k) xs x (h k) (new_key k x new)

abbrev pub ActorsKnown : List UserRow → List AuditLogEntry → Type 0
ActorsKnown users = All (λ e. AuditRepo.is_known e.actor_id users ≡ true)

-- More users know more actors.
pub is_known-mono :
    (users users' : List UserRow)
    → ((a : String)
        → exists (UserRepo.has_id a) users ≡ true
        → exists (UserRepo.has_id a) users' ≡ true)
    → (logs : List AuditLogEntry) → ActorsKnown users logs
    → ActorsKnown users' logs
is_known-mono users users' more logs known =
    All-weaken (λ e. AuditRepo.is_known e.actor_id users ≡ true)
      (λ e. AuditRepo.is_known e.actor_id users' ≡ true) logs (λ e. step e.actor_id) known
  where
    step :
        (a : Option String) → AuditRepo.is_known a users ≡ true → AuditRepo.is_known a users' ≡ true
    step none h = refl
    step (some a) h = more a h

module _ {db : Db} (s : IsSchema db) where
  -- One more entry, over the users as they are at the end.
  pub new_entry :
      (users : List UserRow) (e : AuditLogEntry)
      → IsNew users db.audit_logs e
      → ActorsKnown users db.audit_logs
      → ((id : String) → count (AuditRepo.has_id id) (db.audit_logs ++ e ∷ []) ≤ 1)
        × ActorsKnown users (db.audit_logs ++ e ∷ [])
  new_entry users e new known = (
    count-new_key (λ x. x.id) db.audit_logs e s.entry_ids new.0,
    All-append (λ x. AuditRepo.is_known x.actor_id users ≡ true) db.audit_logs (e ∷ []) known
        (new.1, tt),
  )
