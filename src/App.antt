-- ===== src/App.antt =====
-- The state that a service call works on, and the monad of its methods. A block under `begin`
-- that raises leaves the database as it was (app/db/session.py: no autobegin, so every statement
-- runs inside such a block); what was sent to the cache stays.
pub mod Laws
pub mod Fresh
use project_6_document_class.Base.{
  ℕ, ◌+◌, String, Bool, true, false, List, [], ◌∷◌, ◌++◌, Option, none, some, if◌then◌else◌,
}
use project_6_document_class.Db.{Db}

-- What the program draws from its environment, by the number of earlier draws: `uuid.uuid4()`,
-- the clock, and pwdlib's salted hash and its verification, which may raise.
pub record Env : Type 0 where
  pub uuid4 : ℕ → String
  pub now : ℕ → ℕ
  pub pwd_hash : ℕ → String → String
  pub pwd_verify : String → String → Option Bool

-- `deleted` is the list of that name in `InMemoryCacheInvalidator`: the keys that were
-- invalidated, in order.
pub record World : Type 0 where
  pub db : Db
  pub deleted : List String
  pub draws : ℕ

pub data Error : Type 0 where
  permission_denied not_found last_admin relabel_not_allowed : String → Error
  invalid_state_transition assertion_error : String → Error
  integrity_error multiple_results_found redis_error : Error

pub data Result {ℓ} (A : Type ℓ) : Type ℓ where
  ok : A → Result A
  err : Error → Result A

abbrev pub App : Type 0 → Type 0
App A = World → Result A × World

module _ {A : Type 0} where
  abbrev pub pure : A → App A
  pure a w = (ok a, w)

  abbrev pub raise : Error → App A
  raise e w = (err e, w)

  abbrev pub gets : (World → A) → App A
  gets f w = (ok (f w), w)

infixl 5 ◌>>=◌ ◌>>◌
abbrev pub ◌>>=◌ : {A B : Type 0} → App A → (A → App B) → App B
◌>>=◌ m f w = let (r, w') = m w in elim r [ ok a ↦ f a w' | err e ↦ (err e, w') ]

abbrev pub ◌>>◌ : {A B : Type 0} → App A → App B → App B
m >> k = m >>= λ _. k

abbrev pub modify : (Db → Db) → App Unit
modify f w = (ok tt, record w { db = f w.db })

abbrev pub raise_if : Bool → Error → App Unit
raise_if b e w = (if b then err e else ok tt, w)

-- `async with self.db.begin()`: commit, or roll back and raise again.
abbrev pub begin : {A : Type 0} → App A → App A
begin m w =
    let (r, w') = m w in elim r [ ok a ↦ (ok a, w') | err e ↦ (err e, record w' { db = w.db }) ]

-- One draw from the environment.
abbrev pub draw : {A : Type 0} → (ℕ → A) → App A
draw f w = (ok (f w.draws), record w { draws = w.draws + 1 })

-- SQLAlchemy's `scalar_one_or_none()` raises on a second row.
abbrev pub scalar_one_or_none : {A : Type 0} → List A → App (Option A)
scalar_one_or_none [] = pure none
scalar_one_or_none (x ∷ []) = pure (some x)
scalar_one_or_none (x ∷ y ∷ zs) = raise multiple_results_found
