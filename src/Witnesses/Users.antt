-- ===== src/Witnesses/Users.antt =====
-- The properties of app/services/user_service.py at concrete inputs.
use project_6_document_class.Base.{
  ◌+◌, ◌≡◌, ◌≢◌, refl, String, List, [], ◌∷◌, ◌++◌, some, select, update, delete_where, count,
  exists, length, arith,
}
use project_6_document_class.Domain.{Role, admin, reviewer, auditor, User}
use project_6_document_class.Db.{UserRow}
use project_6_document_class.App.{World, Error, ok, err}
use project_6_document_class.Repo.UserRepo
use project_6_document_class.Cache.{users_list_key, user_me_key}
use project_6_document_class.Domain.{str, role_value}
use project_6_document_class.UserService.{user_target}
use project_6_document_class.UserService.{change_role, delete_user}
use project_6_document_class.UserService.Admins.{HasAdmin}
use project_6_document_class.UserService.Requests
use project_6_document_class.UserService.Requests.{serve, serve-HasAdmin}
use project_6_document_class.UserService.Effects
use project_6_document_class.Witnesses.{tally, env, row, person, office, to_auditor}

abbrev requests : List (User × Requests.Request)
requests =
    (person "ann" admin, Requests.set_role "bob" to_auditor)
    ∷ (person "ann" admin, Requests.set_role "ann" to_auditor)
    ∷ (person "rae" reviewer, Requests.delete "ann")
    ∷ []

office-HasAdmin : HasAdmin office.db
unfolding count
office-HasAdmin = omega arith

serve-HasAdmin_example : HasAdmin (serve env requests office).db
serve-HasAdmin_example = serve-HasAdmin env requests office office-HasAdmin

role_runs :
    (change_role env "bob" to_auditor (person "ann" admin) office).0 ≡ ok (person "bob" auditor)
unfolding change_role select update exists count
role_runs = refl

change_role_users_example :
    let w' = (change_role env "bob" to_auditor (person "ann" admin) office).1 in
    (◌≡◌ {A = Role} admin admin)
    × (w'.db.users ≡ update (UserRepo.has_id "bob") (UserRepo.with_role auditor 0) office.db.users)
    × (w'.deleted ≡ ([] ++ user_me_key "bob" ∷ []) ++ users_list_key ∷ [])
    × (◌≡◌ {A = Role} auditor auditor)
change_role_users_example =
    Effects.change_role_users env "bob" to_auditor (person "ann" admin) office role_runs

change_role_audit_example :
    (x : UserRow) × (select (UserRepo.has_id "bob") office.db.users ≡ x ∷ [])
    × ((change_role env "bob" to_auditor (person "ann" admin) office).1.db.audit_logs
        ≡ []
          ++ record {
            id = tally 1;
            actor_id = some "ann";
            action = "role_change";
            target = user_target "bob";
            details = ("old_role", str (role_value x.role)) ∷ ("new_role", str "auditor") ∷ [];
            timestamp = 2;
          }
            ∷ [])
change_role_audit_example =
    Effects.change_role_audit env "bob" to_auditor (person "ann" admin) office role_runs

abbrev alone : World
alone = record office { db = record office.db { users = row "ann" admin ∷ [] } }

last_admin_runs :
    (change_role env "ann" to_auditor (person "ann" admin) alone).0
    ≡ err (Error.last_admin "Cannot demote the last admin")
unfolding change_role select update exists count
last_admin_runs = refl

delete_runs : (delete_user env "bob" (person "ann" admin) office).0 ≡ ok tt
unfolding delete_user select update exists count delete_where
delete_runs = refl

delete_user_users_example :
    let w' = (delete_user env "bob" (person "ann" admin) office).1 in
    (w'.db.users ≡ delete_where (UserRepo.has_id "bob") office.db.users)
    × (length w'.db.audit_logs ≡ 0 + 1)
    × (◌≢◌ {A = String} "bob" "ann")
delete_user_users_example =
    Effects.delete_user_users env "bob" (person "ann" admin) office delete_runs
