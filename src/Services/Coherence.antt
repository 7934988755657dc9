-- ===== src/Services/Coherence.antt =====
-- The cached responses against the tables. Redis and the decorator `@cache` of fastapi-cache are
-- the interface `Redis`: what is stored under a key and what a deletion leaves.
use project_6_document_class.Base.{
  ℕ, ◌≡◌, ◌∙◌, String, true, List, [], ◌∷◌, Option, none, some, arith, ◌⊎◌, inl, inr, select,
  rows_cases,
}
use project_6_document_class.Domain.{User, Batch, Prediction, text_in}
use project_6_document_class.Db.{Db, UserRow, BatchRow}
use project_6_document_class.App.{World}
use project_6_document_class.Cache.Keys.{
  Key, key_text, users_list, batches_list, predictions_recent, user_me, batch, predictions_batch,
}
use project_6_document_class.Repo.OrderBy.{OrderBy}
use project_6_document_class.Repo.UserRepo
use project_6_document_class.Repo.BatchRepo
use project_6_document_class.Repo.PredictionRepo
use project_6_document_class.Routers
use project_6_document_class.UserService
use project_6_document_class.BatchService
use project_6_document_class.PredictionService
use project_6_document_class.Routers.{Enforcer, Reply, reply, http_exception, unhandled}
use project_6_document_class.Services.Frame.{Frame}

-- A body that a handler returns.
pub data Response : Type 0 where
  of_users : List User → Response
  of_user : User → Response
  of_batches : List Batch → Response
  of_one_batch : Batch → Response
  of_predictions : List Prediction → Response

-- The request behind a cached response: who asks, and which page. The keys do not hold these, so
-- they are one for all requests here.
pub record Request : Type 0 where
  pub enforcer : Enforcer
  pub actor : User
  pub users_order : OrderBy {A = UserRow} (λ u. u.created_at)
  pub batches_order : OrderBy {A = BatchRow} (λ b. b.created_at)
  pub predictions_order : OrderBy {A = Prediction} (λ p. p.created_at)
  pub skip : ℕ
  pub limit : ℕ

-- An exception is not cached.
abbrev pub body : {A : Type 0} → (A → Response) → Reply A → Option Response
body f (reply a) = some (f a)
body f (http_exception _ _) = none
body f (unhandled _) = none

abbrev state_of : Db → World
state_of db = record { db = db; deleted = []; draws = 0 }

-- What the handler of a key answers by the tables. `/users/me` is asked by the user of the key.
unfoldable pub respond : Request → Key → Db → Option Response
unfolding Routers.list_users Routers.get_me Routers.list_batches Routers.get_batch
    Routers.recent_predictions Routers.predictions_for_batch
respond r users_list db =
    body of_users
      (Routers.list_users r.enforcer r.users_order r.skip r.limit r.actor (state_of db)).0
respond r (user_me id) db =
    body of_user (Routers.get_me (record r.actor { id = id }) (state_of db)).0
respond r batches_list db =
    body of_batches
      (Routers.list_batches r.enforcer r.batches_order r.skip r.limit r.actor (state_of db)).0
respond r (batch id) db =
    body of_one_batch (Routers.get_batch r.enforcer id r.actor (state_of db)).0
respond r predictions_recent db =
    body of_predictions
      (Routers.recent_predictions r.enforcer r.predictions_order r.limit r.actor (state_of db)).0
respond r (predictions_batch id) db =
    body of_predictions
      (Routers.predictions_for_batch r.enforcer r.predictions_order id r.actor (state_of db)).0

module _ (r : Request) (db db' : Db) where
  respond-users_list : db'.users ≡ db.users → respond r users_list db' ≡ respond r users_list db
  unfolding respond Routers.list_users UserService.list_users
  respond-users_list e = ground arith

  respond-batches_list :
      db'.batches ≡ db.batches → respond r batches_list db' ≡ respond r batches_list db
  unfolding respond Routers.list_batches BatchService.list_batches
  respond-batches_list e = ground arith

  respond-predictions_recent :
      db'.predictions ≡ db.predictions
      → respond r predictions_recent db' ≡ respond r predictions_recent db
  unfolding respond Routers.recent_predictions PredictionService.get_recent_predictions
  respond-predictions_recent e = ground arith

  respond-predictions_batch :
      (id : String)
      → select (PredictionRepo.of_batch id) db'.predictions
        ≡ select (PredictionRepo.of_batch id) db.predictions
      → respond r (predictions_batch id) db' ≡ respond r (predictions_batch id) db
  unfolding respond Routers.predictions_for_batch PredictionService.get_predictions_for_batch
  respond-predictions_batch id e = ground arith

  respond-user_me :
      (id : String) {v : Response}
      → ((x : UserRow)
          → select (UserRepo.has_id id) db.users ≡ x ∷ []
          → select (UserRepo.has_id id) db'.users ≡ x ∷ [])
      → respond r (user_me id) db ≡ some v
      → respond r (user_me id) db' ≡ some v
  unfolding respond Routers.get_me UserService.get_me
  respond-user_me id again h = elim (rows_cases (select (UserRepo.has_id id) db.users)) [
    | inl e ↦ absurd (ground (arith, e))
    | inr (inl (x, e)) ↦ ground (arith, e, again x e)
    | inr (inr (x, y, zs, e)) ↦ absurd (ground (arith, e))
  ]

  respond-batch :
      (id : String) {v : Response}
      → ((x : BatchRow)
          → select (BatchRepo.has_id id) db.batches ≡ x ∷ []
          → select (BatchRepo.has_id id) db'.batches ≡ x ∷ [])
      → respond r (batch id) db ≡ some v
      → respond r (batch id) db' ≡ some v
  unfolding respond Routers.get_batch BatchService.get_batch
  respond-batch id again h = elim (rows_cases (select (BatchRepo.has_id id) db.batches)) [
    | inl e ↦ absurd (ground (arith, e))
    | inr (inl (x, e)) ↦ ground (arith, e, again x e)
    | inr (inr (x, y, zs, e)) ↦ absurd (ground (arith, e))
  ]

  -- A response whose key is not deleted is what the handler still answers.
  pub respond-Frame :
      {keys : List String}
      → Frame db db' keys
      → (k : Key) {v : Response} → respond r k db ≡ some v
      → (text_in (key_text k) keys ≡ true) ⊎ (respond r k db' ≡ some v)
  respond-Frame f users_list h = elim f.users [
    | inl d ↦ inl d
    | inr e ↦ inr (respond-users_list e ∙ h)
  ]
  respond-Frame f batches_list h = elim f.batches [
    | inl d ↦ inl d
    | inr e ↦ inr (respond-batches_list e ∙ h)
  ]
  respond-Frame f predictions_recent h = elim f.recent [
    | inl d ↦ inl d
    | inr e ↦ inr (respond-predictions_recent e ∙ h)
  ]
  respond-Frame f (user_me id) h = elim (f.user id) [
    | inl d ↦ inl d
    | inr again ↦ inr (respond-user_me id again h)
  ]
  respond-Frame f (batch id) h = elim (f.batch id) [
    | inl d ↦ inl d
    | inr again ↦ inr (respond-batch id again h)
  ]
  respond-Frame f (predictions_batch id) h = elim (f.of_batch id) [
    | inl d ↦ inl d
    | inr e ↦ inr (respond-predictions_batch id e ∙ h)
  ]
