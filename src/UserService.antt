-- ===== src/UserService.antt =====
-- app/services/user_service.py, with app/infra/security.py.
pub mod Admins
pub mod Effects
pub mod Requests
pub mod Race
use Prim.Native.String.{◌++◌ as ◌+++◌}
use project_6_document_class.Base.{
  ℕ, String, Bool, true, false, not, ◌==◌, ◌&&◌, eqb, List, [], ◌∷◌, Option, none, some,
  if◌then◌else◌,
}
use project_6_document_class.Domain.{
  Role, admin, User, UserCreate, UserRoleUpdate, role_eq, role_value, str,
}
use project_6_document_class.Db.{UserRow}
use project_6_document_class.App.{
  Env, App, permission_denied, not_found, last_admin, assertion_error, pure, raise, raise_if, begin,
  draw, ◌>>=◌, ◌>>◌,
}
use project_6_document_class.Repo.UserRepo
use project_6_document_class.Repo.AuditRepo
use project_6_document_class.Repo.OrderBy.{OrderBy}
use project_6_document_class.Cache
use project_6_document_class.Cache.{users_list_key, user_me_key}

-- `if not user: raise NotFound(...)`, and the same for what an update returns.
abbrev pub or_not_found : {A : Type 0} → String → Option A → App A
or_not_found message none = raise (not_found message)
or_not_found message (some a) = pure a

abbrev must_exist : {A : Type 0} → Option A → App A
must_exist none = raise (assertion_error "User must exist after update")
must_exist (some a) = pure a

-- `f"user:{id}"`, the target of an audit entry.
abbrev pub user_target : String → String
user_target user_id = "user:" +++ user_id

-- `infra.security.verify_password`: what the library raises is a failure.
abbrev pub verify_password : Env → String → String → Bool
verify_password env plain hashed = elim (env.pwd_verify plain hashed) [ none ↦ false | some b ↦ b ]

unfoldable pub get_me : String → App User
unfolding UserRepo.get_by_id
get_me user_id = begin (do user ← UserRepo.get_by_id user_id; or_not_found "User not found" user)

unfoldable pub get_by_id : String → App User
unfolding get_me
get_by_id = get_me

-- The last admin may not lose the role: the test that both writers of a role make.
unfoldable pub spare_last_admin : Bool → String → App Unit
unfolding UserRepo.count_by_role
spare_last_admin loses message =
    if loses
    then (do
      admin_count ← UserRepo.count_by_role admin
      raise_if (eqb admin_count 1) (last_admin message))
    else pure tt

module _ (env : Env) where
  -- `infra.security.hash_password`, salted.
  abbrev pub hash_password : String → App String
  hash_password plain = draw (λ n. env.pwd_hash n plain)

  unfoldable pub create_user : UserCreate → User → App User
  unfolding UserRepo.create AuditRepo.create
  create_user form actor = do
    raise_if (not (role_eq actor.role admin)) (permission_denied "Only admins can create users")
    hashed ← hash_password form.password
    let to_persist : UserCreate = record form { password = hashed }
    user ← begin (do
      user ← UserRepo.create env to_persist
      AuditRepo.create env (some actor.id) "user_create" (user_target user.id)
          (("email", str form.email) ∷ ("role", str (role_value form.role)) ∷ [])
      pure user)
    Cache.delete users_list_key
    pure user

  -- The transaction of `change_role` up to the count of the admins.
  unfoldable pub check_role : String → UserRoleUpdate → App User
  unfolding UserRepo.get_by_id spare_last_admin
  check_role target_user_id update = do
    found ← UserRepo.get_by_id target_user_id
    target ← or_not_found "Target user not found" found
    spare_last_admin (role_eq target.role admin && not (role_eq update.role admin))
        "Cannot demote the last admin"
    pure target

  -- The rest of the transaction: the UPDATE and the entry.
  unfoldable pub write_role : String → UserRoleUpdate → User → User → App User
  unfolding UserRepo.update_role AuditRepo.create
  write_role target_user_id update actor target = do
    changed ← UserRepo.update_role env target_user_id update.role
    updated ← must_exist changed
    AuditRepo.create env (some actor.id) "role_change" (user_target target_user_id) (
        ("old_role", str (role_value target.role))
        ∷ ("new_role", str (role_value update.role))
        ∷ [])
    pure updated

  unfoldable pub change_role : String → UserRoleUpdate → User → App User
  unfolding check_role write_role
  change_role target_user_id update actor = do
    raise_if (not (role_eq actor.role admin)) (permission_denied "Only admins can change roles")
    updated ← begin (do
      target ← check_role target_user_id update
      write_role target_user_id update actor target)
    Cache.delete (user_me_key target_user_id)
    Cache.delete users_list_key
    pure updated

  unfoldable pub delete_user : String → User → App Unit
  unfolding UserRepo.get_by_id spare_last_admin UserRepo.delete AuditRepo.create
  delete_user target_user_id actor = do
    raise_if (not (role_eq actor.role admin)) (permission_denied "Only admins can delete users")
    raise_if (target_user_id == actor.id) (permission_denied "You cannot delete your own account")
    begin (do
      found ← UserRepo.get_by_id target_user_id
      target ← or_not_found "User not found" found
      spare_last_admin (role_eq target.role admin) "Cannot delete the last admin account"
      AuditRepo.create env (some actor.id) "user_deleted" (user_target target_user_id)
          (("email", str target.email) ∷ ("role", str (role_value target.role)) ∷ [])
      UserRepo.delete target_user_id)
    Cache.delete (user_me_key target_user_id)
    Cache.delete users_list_key

module _ (order : OrderBy {A = UserRow} (λ u. u.created_at)) where
  unfoldable pub list_users : User → ℕ → ℕ → App (List User)
  unfolding UserRepo.list_all
  list_users actor skip limit = do
    raise_if (not (role_eq actor.role admin)) (permission_denied "Only admins can list users")
    begin (UserRepo.list_all order limit skip)
