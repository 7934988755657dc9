-- ===== src/SeedAdmin.antt =====
-- scripts/seed_admin.py.
use project_6_document_class.Base.{◌≡◌, String, true, ltb, if◌then◌else◌, arith, count}
use project_6_document_class.Base.RowLaws.{count-append}
use project_6_document_class.Domain.{admin}
use project_6_document_class.App.{Env, World, App, ok, pure, gets, draw, begin, ◌>>=◌}
use project_6_document_class.Repo.UserRepo
use project_6_document_class.UserService.Admins.{HasAdmin}

module _ (env : Env) (email password : String) where
  -- The times come from the columns' `server_default`.
  abbrev insert_admin : App Unit
  insert_admin = do
    id ← draw env.uuid4
    hashed ← draw (λ n. env.pwd_hash n password)
    now ← draw env.now
    UserRepo.add_user (record {
      id = id;
      email = email;
      hashed_password = hashed;
      role = admin;
      is_active = true;
      created_at = now;
      updated_at = now;
    })

  unfoldable pub seed_admin : App Unit
  unfolding UserRepo.add_user
  seed_admin = begin (do
    admin_count ← gets (λ w. count (UserRepo.has_role admin) w.db.users)
    if ltb 0 admin_count then pure tt else insert_admin)

  seed_admin_again : (w : World) → HasAdmin w.db → seed_admin w ≡ (ok tt, w)
  unfolding seed_admin
  seed_admin_again w h = ground arith

  seed_admin-HasAdmin : (w : World) → (seed_admin w).0 ≡ ok tt → HasAdmin (seed_admin w).1.db
  unfolding seed_admin count
  seed_admin-HasAdmin w h = grind (arith, count-append)

  -- After a run that returns, the table of users has an admin, and a second run changes nothing.
  pub seed_admin_twice :
      (w : World)
      → (seed_admin w).0 ≡ ok tt
      → let w' = (seed_admin w).1 in HasAdmin w'.db × (seed_admin w' ≡ (ok tt, w'))
  seed_admin_twice w h =
      (seed_admin-HasAdmin w h, seed_admin_again (seed_admin w).1 (seed_admin-HasAdmin w h))
