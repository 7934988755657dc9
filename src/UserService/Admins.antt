-- ===== src/UserService/Admins.antt =====
-- There is an admin at all times.
use project_6_document_class.Base.{ℕ, ◌<◌, String, arith, count, select, rows_cases, inl, inr}
use project_6_document_class.Base.RowLaws.{count-update, count-delete_where, count-append}
use project_6_document_class.Domain.{admin, User, UserCreate, UserRoleUpdate}
use project_6_document_class.Db.{Db}
use project_6_document_class.App.{Env, World}
use project_6_document_class.Repo.UserRepo
use project_6_document_class.UserService.{create_user, change_role, delete_user}

abbrev pub admins : Db → ℕ
admins db = count (UserRepo.has_role admin) db.users

abbrev pub HasAdmin : Db → Type 0
HasAdmin db = 0 < admins db

module _ (env : Env) where
  pub change_role-HasAdmin :
      (id : String) (u : UserRoleUpdate) (actor : User) (w : World)
      → HasAdmin w.db
      → HasAdmin (change_role env id u actor w).1.db
  unfolding change_role count
  change_role-HasAdmin id u actor w h = elim (rows_cases (select (UserRepo.has_id id) w.db.users)) [
    | inl e ↦ ground (arith, e)
    | inr (inl (x, e)) ↦ ground (
      arith,
      e,
      count-update (UserRepo.has_role admin) (UserRepo.has_id id)
          (UserRepo.with_role u.role (env.now w.draws)) w.db.users,
    )
    | inr (inr (x, y, zs, e)) ↦ ground (arith, e)
  ]

  pub create_user-HasAdmin :
      (form : UserCreate) (actor : User) (w : World)
      → HasAdmin w.db
      → HasAdmin (create_user env form actor w).1.db
  unfolding create_user
  create_user-HasAdmin form actor w h = grind (arith, count-append)

  pub delete_user-HasAdmin :
      (id : String) (actor : User) (w : World)
      → HasAdmin w.db
      → HasAdmin (delete_user env id actor w).1.db
  unfolding delete_user count
  delete_user-HasAdmin id actor w h = elim (rows_cases (select (UserRepo.has_id id) w.db.users)) [
    | inl e ↦ ground (arith, e)
    | inr (inl (x, e)) ↦
        ground
          (arith, e, count-delete_where (UserRepo.has_role admin) (UserRepo.has_id id) w.db.users)
    | inr (inr (x, y, zs, e)) ↦ ground (arith, e)
  ]
