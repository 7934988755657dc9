-- ===== src/Limiter.antt =====
-- The login rate limiter of app/api/main.py. Times are readings of one monotonic clock, in a unit
-- of which `window` is sixty seconds; the store is a function from the address of a client.
pub mod Window
use project_6_document_class.Base.{
  ℕ, ◌-◌, ◌*◌, ◌+◌, String, Bool, true, false, ◌==◌, List, [], ◌∷◌, ◌++◌, Option, none, some, ltb,
  leb, if◌then◌else◌, select, length,
}

abbrev pub login_max : ℕ
login_max = 5

-- Sixty seconds, in nanoseconds.
abbrev pub login_win : ℕ
login_win = 60 * 1000000000

abbrev pub Store : Type 0
Store = String → List ℕ

abbrev pub put : String → List ℕ → Store → Store
put ip times store j = if j == ip then times else store j

-- A request as the middleware sees it: the path, the client's host if it is known, the time.
pub record Request : Type 0 where
  pub path : String
  pub host : Option String
  pub now : ℕ

pub data Verdict : Type 0 where
  passed_on too_many : Verdict

abbrev pub address : Option String → String
address none = "unknown"
address (some host) = host

unfoldable pub recent : ℕ → List ℕ → List ℕ
recent now = select (λ t. ltb (now - t) login_win)

-- The middleware up to `call_next`.
unfoldable pub login_rate_limit : Request → Store → Verdict × Store
unfolding recent
login_rate_limit request store =
    if request.path == "/auth/jwt/login"
    then (let ip = address request.host in
        let times = recent request.now (store ip) in
        if leb login_max (length times)
        then (too_many, put ip times store)
        else (passed_on, put ip (times ++ request.now ∷ []) store))
    else (passed_on, store)
