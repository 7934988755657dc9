-- ===== src/UserService/Effects.antt =====
-- What the writes of a user do, and what they leave alone.
use project_6_document_class.Base.{
  ◌+◌, ◌≡◌, ◌≢◌, String, [], ◌∷◌, ◌++◌, arith, select, update, delete_where, eq_iff, rows_cases,
  inl, inr, some, length, length-append,
}
use project_6_document_class.Base.RowLaws.{select-update_ne, length-update}
use project_6_document_class.Domain.{admin, User, UserCreate, UserRoleUpdate, role_value, str}
use project_6_document_class.Db.{UserRow}
use project_6_document_class.App.{Env, World, Error, ok, err}
use project_6_document_class.Cache.{users_list_key, user_me_key}
use project_6_document_class.Repo.UserRepo
use project_6_document_class.UserService.{create_user, change_role, delete_user, user_target}

module _ (env : Env) where
  -- If a change of role raises, no table has changed and no key was deleted from the cache.
  pub change_role_error :
      (id : String) (u : UserRoleUpdate) (actor : User) (w : World) {e : Error}
      → (change_role env id u actor w).0 ≡ err e
      → let w' = (change_role env id u actor w).1 in (w'.db ≡ w.db) × (w'.deleted ≡ w.deleted)
  unfolding change_role
  change_role_error id u actor w h = ground arith

  pub delete_user_error :
      (id : String) (actor : User) (w : World) {e : Error}
      → (delete_user env id actor w).0 ≡ err e
      → let w' = (delete_user env id actor w).1 in (w'.db ≡ w.db) × (w'.deleted ≡ w.deleted)
  unfolding delete_user
  delete_user_error id actor w h = ground arith

  pub create_user_error :
      (form : UserCreate) (actor : User) (w : World) {e : Error}
      → (create_user env form actor w).0 ≡ err e
      → let w' = (create_user env form actor w).1 in (w'.db ≡ w.db) × (w'.deleted ≡ w.deleted)
  unfolding create_user
  create_user_error form actor w h = ground arith

  -- If a change of role returns, the actor is an admin, the rows of the id have the new role and
  -- no other row has changed, the keys of that user and of the list of users are deleted from the
  -- cache, and the returned user has the new role.
  pub change_role_users :
      (id : String) (u : UserRoleUpdate) (actor : User) (w : World) {v : User}
      → (change_role env id u actor w).0 ≡ ok v
      → let w' = (change_role env id u actor w).1 in
        (actor.role ≡ admin)
        × (w'.db.users
            ≡ update (UserRepo.has_id id) (UserRepo.with_role u.role (env.now w.draws)) w.db.users)
        × (w'.deleted ≡ (w.deleted ++ user_me_key id ∷ []) ++ users_list_key ∷ [])
        × (v.role ≡ u.role)
  unfolding change_role
  change_role_users id u actor w h = elim (rows_cases (select (UserRepo.has_id id) w.db.users)) [
    | inl e ↦ absurd (ground (arith, e))
    | inr (inl (x, e)) ↦
        (ground (arith, e), ground (arith, e), ground (arith, e), ground (arith, e))
    | inr (inr (x, y, zs, e)) ↦ absurd (ground (arith, e))
  ]

  -- If a change of role returns, the rows of every other id are what they were.
  pub change_role_others :
      (id j : String) (u : UserRoleUpdate) (actor : User) (w : World) {v : User}
      → (change_role env id u actor w).0 ≡ ok v
      → j ≢ id
      → select (UserRepo.has_id j) (change_role env id u actor w).1.db.users
        ≡ select (UserRepo.has_id j) w.db.users
  change_role_others id j u actor w h ne = rw ((change_role_users id u actor w h).1) (
      select-update_ne (UserRepo.has_id j) (UserRepo.has_id id)
        (UserRepo.with_role u.role (env.now w.draws)) w.db.users
        (λ x p. ground (arith, eq_iff x.id j, eq_iff x.id id))
        (λ x p. ground (arith, eq_iff x.id j, eq_iff x.id id)))

  -- If a change of role returns, the user is alone under the id, and the log has exactly one more
  -- entry, the last one: it names the actor and the target, and holds the role that the user had
  -- and the new role.
  pub change_role_audit :
      (id : String) (u : UserRoleUpdate) (actor : User) (w : World) {v : User}
      → (change_role env id u actor w).0 ≡ ok v
      → (x : UserRow) × (select (UserRepo.has_id id) w.db.users ≡ x ∷ [])
        × ((change_role env id u actor w).1.db.audit_logs
            ≡ w.db.audit_logs
              ++ record {
                id = env.uuid4 (w.draws + 1);
                actor_id = some actor.id;
                action = "role_change";
                target = user_target id;
                details =
                    ("old_role", str (role_value x.role))
                    ∷ ("new_role", str (role_value u.role))
                    ∷ [];
                timestamp = env.now (w.draws + 1 + 1);
              }
                ∷ [])
  unfolding change_role
  change_role_audit id u actor w h = elim (rows_cases (select (UserRepo.has_id id) w.db.users)) [
    | inl e ↦ absurd (ground (arith, e))
    | inr (inl (x, e)) ↦ (x, e, ground (arith, e))
    | inr (inr (x, y, zs, e)) ↦ absurd (ground (arith, e))
  ]

  -- If a deletion returns, the rows of the id are gone and all other rows stay, the log is longer
  -- by one entry, and the id is not the actor's own.
  pub delete_user_users :
      (id : String) (actor : User) (w : World)
      → (delete_user env id actor w).0 ≡ ok tt
      → let w' = (delete_user env id actor w).1 in
        (w'.db.users ≡ delete_where (UserRepo.has_id id) w.db.users)
        × (length w'.db.audit_logs ≡ length w.db.audit_logs + 1)
        × (id ≢ actor.id)
  unfolding delete_user
  delete_user_users id actor w h = elim (rows_cases (select (UserRepo.has_id id) w.db.users)) [
    | inl e ↦ absurd (ground (arith, e))
    | inr (inl (x, e)) ↦ (
      ground (arith, e),
      grind (arith, e, length-update, length-append),
      ground (arith, e, eq_iff id actor.id),
    )
    | inr (inr (x, y, zs, e)) ↦ absurd (ground (arith, e))
  ]
