-- ===== src/Startup.antt =====
-- The start of the API: `lifespan` and `_init_casbin_enforcer` of app/api/main.py, and what the
-- requests take from it by app/api/deps.py and app/api/routers/auth.py. The environment, the
-- files, Vault, the database of the policies and Redis are what a start finds.
pub mod Boots
pub mod Restarts
use Prim.Native.String.{[] as empty, ◌∷◌ as ◌:::◌, ◌++◌ as ◌+++◌}
use Prim.Native.Char.{Char, code}
use project_6_document_class.Base.{
  ℕ, zero, suc, String, Bool, true, false, not, ◌==◌, ◌&&◌, eqb, List, [], ◌∷◌, Option, none, some,
  if◌then◌else◌,
}
use project_6_document_class.Casbin.{load_policy}
use project_6_document_class.Classifier.{
  ModelFiles, Integrity, intact, verify_model_integrity, or_else,
}
use project_6_document_class.Vault.{Outside, Client, unset, Secret, value, get_secret}

abbrev pub Rules : Type 0
Rules = List (List String)

-- What a start finds. `policy_file` has the lines of casbin/policy.csv, if it is there; `redis`
-- says that the client and the cache are set up without an exception.
pub record Found : Type 0 where
  pub getenv : String → Option String
  pub model_files : ModelFiles
  pub is_authenticated : Bool
  pub readable : Bool
  pub secrets : String → Option String
  pub policy_file : Option (List String)
  pub redis : Bool

abbrev pub outside : Found → Outside
outside f = record {
  vault_addr = or_else "" (f.getenv "VAULT_ADDR");
  vault_token = or_else "" (f.getenv "VAULT_TOKEN");
  is_authenticated = f.is_authenticated;
  readable = f.readable;
  secrets = f.secrets;
  environ = λ key. or_else "" (f.getenv key);
}

abbrev pub is_dev : Found → Bool
is_dev f = elim (f.getenv "DEV_MODE") [ none ↦ false | some v ↦ v == "1" ]

-- The policies that the databases hold, by address; `none` where the adapter cannot open one.
abbrev pub Policies : Type 0
Policies = String → Option Rules

-- What outlives a request: the client of Vault in the process, and the policies.
pub record Process : Type 0 where
  pub client : Client
  pub policies : Policies

abbrev starts_with : String → String → Bool
starts_with empty s = true
starts_with (c ::: p) empty = false
starts_with (c ::: p) (d ::: s) = eqb (code c) (code d) && starts_with p s

-- `s.replace(old, new)` for an `old` of `n + 1` characters; `k` of them are still to be dropped.
abbrev replace_from : (n : ℕ) → (old new : String) → (k : ℕ) → String → String
replace_from n old new k empty = ""
replace_from n old new (suc k) (c ::: s) = replace_from n old new k s
replace_from n old new zero (c ::: s) =
    let dropped = replace_from n old new n s in
    let kept = replace_from n old new zero s in
    if starts_with old (c ::: s) then new +++ dropped else c ::: kept

unfoldable pub with_sync_driver : String → String
with_sync_driver db_url =
    replace_from 20 "postgresql+asyncpg://" "postgresql+psycopg2://" zero db_url

-- `os.environ["DATABASE_URL"]` raises where the variable is not set.
unfoldable pub sync_url : Found → Option String
unfolding with_sync_driver
sync_url f = if is_dev f then some "sqlite:///casbin_dev.db" else elim (f.getenv "DATABASE_URL") [
  | none ↦ none
  | some db_url ↦ some (with_sync_driver db_url)
]

-- `enforcer.save_policy()`, in the database at `url`.
abbrev pub save_policy : String → Rules → Policies → Policies
save_policy url rules policies u = if u == url then some rules else policies u

abbrev pub seeded : String → List String → Policies → Rules → Rules × Policies
seeded url lines policies [] =
    let rules = load_policy lines [] in (rules, save_policy url rules policies)
seeded url lines policies (rule ∷ rules) = (rule ∷ rules, policies)

-- The rules of the enforcer and the stored ones. A policy that is not empty is taken as it is.
abbrev opened : String → List String → Policies → Option Rules → Option (Rules × Policies)
opened url lines policies none = none
opened url lines policies (some rules) = some (seeded url lines policies rules)

abbrev at_url : List String → Policies → Option String → Option (Rules × Policies)
at_url lines policies none = none
at_url lines policies (some url) = opened url lines policies (policies url)

unfoldable pub init_casbin_enforcer : Found → List String → Policies → Option (Rules × Policies)
unfolding sync_url
init_casbin_enforcer f lines policies = at_url lines policies (sync_url f)

-- `app.state`.
pub record State : Type 0 where
  pub jwt_secret : String
  pub enforcer : Rules
  pub redis : Bool

-- What `lifespan` ends in: it yields, or an exception stops the start.
pub data Start : Type 0 where
  started : State → Start
  model_refused : Integrity → Start
  secret_refused : Secret → Start
  jwt_secret_missing policy_file_missing enforcer_failed redis_failed : Start

abbrev with_redis : Found → String → Rules → Start
with_redis f secret rules =
    if f.redis
    then started (record { jwt_secret = secret; enforcer = rules; redis = true })
    else if is_dev f
    then started (record { jwt_secret = secret; enforcer = rules; redis = false })
    else redis_failed

abbrev with_enforcer : Found → String → Process → Option (Rules × Policies) → Start × Process
with_enforcer f secret p none = (enforcer_failed, p)
with_enforcer f secret p (some (rules, policies)) =
    (with_redis f secret rules, record p { policies = policies })

abbrev with_file : Found → String → Process → Option (List String) → Start × Process
with_file f secret p none = (policy_file_missing, p)
with_file f secret p (some []) = (policy_file_missing, p)
with_file f secret p (some (line ∷ lines)) =
    with_enforcer f secret p (init_casbin_enforcer f (line ∷ lines) p.policies)

abbrev with_secret : Found → Process → Secret → Start × Process
with_secret f p (value secret) =
    if secret == "" then (jwt_secret_missing, p) else with_file f secret p f.policy_file
with_secret f p s = (secret_refused s, p)

abbrev after_secret : Found → Process → Secret × Client → Start × Process
after_secret f p (secret, client) = with_secret f (record p { client = client }) secret

abbrev with_model : Found → Process → Integrity → Start × Process
with_model f p intact = after_secret f p (get_secret (outside f) "JWT_SECRET" p.client)
with_model f p refused = (model_refused refused, p)

unfoldable pub lifespan : Found → Process → Start × Process
unfolding init_casbin_enforcer verify_model_integrity get_secret
lifespan f p = with_model f p (verify_model_integrity f.model_files)

-- The policies after starts of new processes, one after another.
unfoldable pub restart : List Found → Policies → Policies
unfolding lifespan
restart [] policies = policies
restart (f ∷ fs) policies =
    restart fs (lifespan f (record { client = unset; policies = policies })).1.policies

pub data Invalidator : Type 0 where
  in_memory of_redis : Invalidator

-- The dependency of the requests that gives the services their cache.
unfoldable pub get_cache : State → Invalidator
get_cache s = if s.redis then of_redis else in_memory

-- The strategy's secret and its lifetime in seconds; `none` is an exception. `int` is Python's.
unfoldable pub get_jwt_strategy :
    {Number : Type 0} → (String → Option Number) → Found → Process → Option (String × Number)
unfolding get_secret
get_jwt_strategy {Number} int f p = with_lifetime (get_secret (outside f) "JWT_SECRET" p.client).0
  where
    with_lifetime : Secret → Option (String × Number)
    with_lifetime (value secret) = elim (int (or_else "86400" (f.getenv "JWT_LIFETIME_SECONDS"))) [
      | none ↦ none
      | some seconds ↦ some (secret, seconds)
    ]
    with_lifetime _ = none
