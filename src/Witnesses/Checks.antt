-- ===== src/Witnesses/Checks.antt =====
-- The properties of the enforcer and of the small parts at concrete inputs.
use project_6_document_class.Base.{
  ◌≡◌, refl, true, false, Bool, String, ℕ, Option, none, if◌then◌else◌, [], some, exists, count,
  ◌==◌,
}
use project_6_document_class.Domain.{admin, reviewer, User, UserCreate, UserRoleUpdate}
use project_6_document_class.Domain.Ieee.{Double, less}
use project_6_document_class.Classifier
use project_6_document_class.Classifier.{Expected}
use project_6_document_class.App.{Env, World, ok}
use project_6_document_class.FileName.{name, suffix, is_valid_extension}
use project_6_document_class.Casbin.{load_policy, enforce, policy_csv}
use project_6_document_class.Routers
use project_6_document_class.Routers.Gate
use project_6_document_class.SeedAdmin
use project_6_document_class.UserService.Admins.{HasAdmin}

abbrev env : Env
env = record {
  uuid4 = λ n. "id";
  now = λ n. n;
  pwd_hash = λ n plain. plain;
  pwd_verify = λ plain hashed. some (plain == hashed);
}

abbrev empty_world : World
empty_world = record {
  db = record { users = []; batches = []; predictions = []; audit_logs = [] };
  deleted = [];
  draws = 0;
}

abbrev rae : User
rae = record { id = "rae"; email = "rae"; role = reviewer; is_active = true; created_at = 0 }

abbrev decide : Routers.Enforcer
decide = enforce (load_policy policy_csv [])

abbrev form : UserCreate
form = record { email = "e"; password = "p"; role = admin }

abbrev to_admin : UserRoleUpdate
to_admin = record { role = admin }

users_closed_example :
    (Routers.create_user decide env form rae empty_world
      ≡ (Routers.http_exception 403 "Forbidden", empty_world))
    × (Routers.change_role decide env "x" to_admin rae empty_world
        ≡ (Routers.http_exception 403 "Forbidden", empty_world))
    × (Routers.delete_user decide env "x" rae empty_world
        ≡ (Routers.http_exception 403 "Forbidden", empty_world))
users_closed_example =
    Gate.users_closed decide (λ sub obj act. refl) env "x" form to_admin rae empty_world (λ h. cc)

seeded : (SeedAdmin.seed_admin env "e" "p" empty_world).0 ≡ ok tt
unfolding SeedAdmin.seed_admin count exists
seeded = refl

seed_admin_twice_example :
    let w' = (SeedAdmin.seed_admin env "e" "p" empty_world).1 in
    HasAdmin w'.db × (SeedAdmin.seed_admin env "e" "p" w' ≡ (ok tt, w'))
seed_admin_twice_example = SeedAdmin.seed_admin_twice env "e" "p" empty_world seeded

plain_name : name "scan.tif" ≡ "scan.tif"
unfolding name
plain_name = refl

tif : is_valid_extension (suffix "scan.tif") ≡ true
unfolding is_valid_extension suffix
tif = refl

abbrev expected : String → Option Expected
expected file =
    if file == "a.tif"
    then some (record { label = "memo"; confidence = Classifier.min_top1 })
    else none

abbrev predict : ℕ → String × Double
predict image = ("memo", Classifier.min_top1)

abbrev is_close : Double → Double → Bool
is_close a b = if less a b then false else true
