-- ===== src/Repo/UserRepo.antt =====
-- app/repositories/user_repo.py.
use project_6_document_class.Base.{
  ℕ, ltb, String, Bool, true, false, ◌==◌, ◌||◌, List, [], ◌∷◌, ◌++◌, Option, none, some, map, take,
  drop, select, update, delete_where, count, exists, if◌then◌else◌,
}
use mathlib.Core.Option
use project_6_document_class.Domain.{Role, User, UserCreate, AuditLogEntry, role_eq}
use project_6_document_class.Db.{Db, UserRow, to_user}
use project_6_document_class.App.{
  Env, App, integrity_error, pure, gets, modify, draw, raise_if, ◌>>=◌, ◌>>◌, scalar_one_or_none,
}
use project_6_document_class.Repo.OrderBy.{OrderBy}

-- `UserORM.id == user_id`.
abbrev pub has_id : String → UserRow → Bool
has_id user_id u = u.id == user_id

abbrev pub has_email : String → UserRow → Bool
has_email email u = u.email == email

abbrev pub has_role : Role → UserRow → Bool
has_role role u = role_eq u.role role

abbrev pub with_role : Role → ℕ → UserRow → UserRow
with_role role now u = record u { role = role; updated_at = now }

abbrev pub with_active : Bool → ℕ → UserRow → UserRow
with_active is_active now u = record u { is_active = is_active; updated_at = now }

-- The INSERT of a row, under the primary key and the unique e-mail of the table.
unfoldable pub add_user : UserRow → App Unit
add_user row = do
  users ← gets (λ w. w.db.users)
  raise_if (exists (λ u. has_id row.id u || has_email row.email u) users) integrity_error
  modify (λ db. record db { users = db.users ++ row ∷ [] })

module _ (env : Env) where
  unfoldable pub create : UserCreate → App User
  unfolding add_user
  create user_create = do
    now ← draw env.now
    id ← draw env.uuid4
    let user_orm : UserRow = record {
      id = id;
      email = user_create.email;
      hashed_password = user_create.password;
      role = user_create.role;
      is_active = true;
      created_at = now;
      updated_at = now;
    }
    add_user user_orm
    pure (to_user user_orm)

  -- The UPDATE sets `updated_at` too, by the column's `onupdate`.
  unfoldable pub update_role : String → Role → App (Option User)
  update_role user_id new_role = do
    now ← draw env.now
    let set_role = with_role new_role now
    users ← gets (λ w. w.db.users)
    modify (λ db. record db { users = update (has_id user_id) set_role db.users })
    user_orm ← scalar_one_or_none (map set_role (select (has_id user_id) users))
    pure (Option.map to_user user_orm)

  unfoldable pub update_active : String → Bool → App (Option User)
  update_active user_id is_active = do
    now ← draw env.now
    let set_active = with_active is_active now
    users ← gets (λ w. w.db.users)
    modify (λ db. record db { users = update (has_id user_id) set_active db.users })
    user_orm ← scalar_one_or_none (map set_active (select (has_id user_id) users))
    pure (Option.map to_user user_orm)

unfoldable pub get_by_id : String → App (Option User)
get_by_id user_id = do
  users ← gets (λ w. w.db.users)
  user_orm ← scalar_one_or_none (select (has_id user_id) users)
  pure (Option.map to_user user_orm)

unfoldable pub get_by_email : String → App (Option User)
get_by_email email = do
  users ← gets (λ w. w.db.users)
  user_orm ← scalar_one_or_none (select (has_email email) users)
  pure (Option.map to_user user_orm)

unfoldable pub list_all : OrderBy {A = UserRow} (λ u. u.created_at) → ℕ → ℕ → App (List User)
list_all order limit offset =
    gets (λ w. map to_user (take limit (drop offset (order.desc w.db.users))))

unfoldable pub count_by_role : Role → App ℕ
count_by_role role = gets (λ w. count (has_role role) w.db.users)

-- `AuditLogORM.actor_id == user_id`, which a null does not fulfil.
abbrev pub is_by : String → AuditLogEntry → Bool
is_by user_id e = elim e.actor_id [ none ↦ false | some a ↦ a == user_id ]

abbrev pub without_actor : AuditLogEntry → AuditLogEntry
without_actor e = record e { actor_id = none }

-- `ondelete="SET NULL"` of `audit_logs.actor_id`: the entries of the deleted user stay.
abbrev pub forget_actor : String → Db → Db
forget_actor user_id db = record db {
  audit_logs = update (is_by user_id) without_actor db.audit_logs;
}

unfoldable pub delete : String → App Bool
delete user_id = do
  rowcount ← gets (λ w. count (has_id user_id) w.db.users)
  modify (λ db. record db { users = delete_where (has_id user_id) db.users })
  modify (λ db. if ltb 0 rowcount then forget_actor user_id db else db)
  pure (ltb 0 rowcount)
