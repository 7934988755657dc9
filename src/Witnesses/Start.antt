-- ===== src/Witnesses/Start.antt =====
-- The properties of the start of the API at concrete inputs.
use project_6_document_class.Base.{
  ℕ, ◌≡◌, refl, String, true, false, ◌==◌, [], ◌∷◌, Option, none, some, if◌then◌else◌,
}
use project_6_document_class.Casbin.{load_policy, enforce, policy_csv}
use project_6_document_class.Vault.{unset, no_vault}
use project_6_document_class.Startup.{
  Found, Process, Policies, State, started, lifespan, get_jwt_strategy, sync_url, with_sync_driver,
  save_policy, restart, Rules, seeded, init_casbin_enforcer,
}
use project_6_document_class.Startup.Boots
use project_6_document_class.Startup.Boots.{IsReady}
use project_6_document_class.Startup.Restarts
use project_6_document_class.Casbin.Matrix.{Endpoint}
use project_6_document_class.Domain.{auditor}

abbrev url : String
url = "postgresql+psycopg2://db/app"

abbrev environ : String → Option String
environ key =
    if key == "DATABASE_URL"
    then some "postgresql+asyncpg://db/app"
    else if key == "JWT_SECRET"
    then some "secret"
    else none

abbrev first : Found
first = record {
  getenv = environ;
  model_files = record { skip_check = true; weights_sha256 = none; card = none };
  is_authenticated = false;
  readable = false;
  secrets = λ k. none;
  policy_file = some policy_csv;
  redis = true;
}

-- A later start, with a file that opens the list of users to auditors.
abbrev last : Found
last = record first { policy_file = some ("p, auditor, /users, GET" ∷ []) }

abbrev new_database : Policies
new_database v = if v == url then some [] else none

abbrev fresh : Process
fresh = record { client = unset; policies = new_database }

abbrev state : State
state = record { jwt_secret = "secret"; enforcer = load_policy policy_csv []; redis = true }

abbrev stored : Policies
stored = save_policy url (load_policy policy_csv []) new_database

abbrev running : Process
running = record { client = no_vault; policies = stored }

at_postgres : sync_url first ≡ some url
unfolding sync_url with_sync_driver
at_postgres = refl

starts : lifespan first fresh ≡ (started state, running)
unfolding lifespan init_casbin_enforcer sync_url with_sync_driver
starts = refl

abbrev int : String → Option ℕ
int s = if s == "86400" then some 86400 else none

jwt_after_start_example :
    get_jwt_strategy int (record first { redis = false }) running ≡ some ("secret", 86400)
jwt_after_start_example =
    Boots.jwt_after_start int first (record first { redis = false }) new_database state running
      starts refl refl

at_postgres_again : sync_url last ≡ some url
unfolding sync_url with_sync_driver
at_postgres_again = refl

abbrev kept : Rules × Policies
kept = seeded url ("p, auditor, /users, GET" ∷ []) stored (load_policy policy_csv [])

again : lifespan last (record { client = unset; policies = restart [] stored }) ≡ (
  started (record state { enforcer = kept.0 }),
  record { client = no_vault; policies = kept.1 },
)
unfolding lifespan init_casbin_enforcer sync_url with_sync_driver restart
again = refl

restarts_permit_example : enforce kept.0 "auditor" "/users" "GET" ≡ false
restarts_permit_example =
    Restarts.restarts_permit first last [] new_database url state
      (record state { enforcer = kept.0 }) running (record running { policies = kept.1 })
      at_postgres at_postgres_again refl refl starts again auditor Endpoint.list_users
