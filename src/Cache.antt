-- ===== src/Cache.antt =====
-- app/infra/cache.py: the keys of the cached responses, and the invalidators.
pub mod Keys
use Prim.Native.String.{◌++◌ as ◌+++◌}
use project_6_document_class.Base.{
  ℕ, ◌+◌, String, List, [], ◌∷◌, ◌++◌, Option, none, some, if◌then◌else◌, ltb, length, take, ◌≡◌,
  refl, Bool-cases, inl, inr, arith,
}
use project_6_document_class.App.{App, ok, err, redis_error, World}

abbrev pub users_list_key : String
users_list_key = "users:list"

abbrev pub batches_list_key : String
batches_list_key = "batches:list"

abbrev pub predictions_recent_key : String
predictions_recent_key = "predictions:recent"

unfoldable pub user_me_key : String → String
user_me_key user_id = "user:me:" +++ user_id

unfoldable pub batch_key : String → String
batch_key batch_id = "batch:" +++ batch_id

unfoldable pub predictions_batch_key : String → String
predictions_batch_key batch_id = "predictions:batch:" +++ batch_id

-- `delete` and `delete_many` of an invalidator that does not raise, as `InMemoryCacheInvalidator`,
-- or `RedisCacheInvalidator` while Redis answers.
abbrev pub delete : String → App Unit
delete key w = (ok tt, record w { deleted = w.deleted ++ key ∷ [] })

abbrev pub delete_many : List String → App Unit
delete_many keys w = (ok tt, record w { deleted = w.deleted ++ keys })

-- A call of a service with `RedisCacheInvalidator`, where Redis answers `n` deletions of the call
-- and raises at the next one; `none` answers all. The services delete after they have committed,
-- and do nothing more, so the tables stay as the call has left them.
unfoldable pub under_redis : {A : Type 0} → Option ℕ → App A → App A
under_redis none m w = m w
under_redis (some n) m w =
    let (r, w') = m w in
    let kept = length w.deleted + n in
    if ltb kept (length w'.deleted)
    then (err redis_error, record w' { deleted = take kept w'.deleted })
    else (r, w')

-- A call that returns under Redis is the call itself.
pub under_redis-ok :
    {A : Type 0} (answers : Option ℕ) (m : App A) (w : World) {a : A}
    → (under_redis answers m w).0 ≡ ok a
    → under_redis answers m w ≡ m w
unfolding under_redis
under_redis-ok none m w h = refl
under_redis-ok (some n) m w h =
    elim (Bool-cases (ltb (length w.deleted + n) (length (m w).1.deleted))) [
      | inl e ↦ absurd (ground (arith, e, h))
      | inr e ↦ rw e refl
    ]
