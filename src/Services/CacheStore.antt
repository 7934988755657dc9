-- ===== src/Services/CacheStore.antt =====
-- The responses in Redis while the services write: a step relation over the tables and the store.
use project_6_document_class.Base.{
  ◌≡◌, ◌≢◌, refl, String, false, List, [], ◌∷◌, Option, some, arith, ◌⊎◌, inl, inr, eq_iff,
}
use project_6_document_class.Domain.{text_in}
use project_6_document_class.App.{Env, World}
use project_6_document_class.Cache.Keys.{Key, key_text, key_text_inj}
use project_6_document_class.Services.{Write, perform}
use project_6_document_class.Services.Change.{perform-Change}
use project_6_document_class.Services.Frame.{Change-Frame}
use project_6_document_class.Services.Coherence.{Response, Request, respond, respond-Frame}

-- What is used of Redis: a SET, a DEL, and that an entry is there only if one of its SETs put it
-- there and no later DEL has named its key.
pub record Redis (Store : Type 0) : Type 0 where
  pub get : String → Store → Option Response
  pub set : String → Response → Store → Store
  pub del : String → Store → Store
  pub get-set :
      (j k : String) (r : Response) (s : Store) {v : Response}
      → get j (set k r s) ≡ some v
      → ((j ≡ k) × (v ≡ r)) ⊎ (get j s ≡ some v)
  pub get-del :
      (j k : String) (s : Store) {v : Response}
      → get j (del k s) ≡ some v
      → (j ≢ k) × (get j s ≡ some v)

module _ {Store : Type 0} (redis : Redis Store) where
  -- `await cache.delete(key)`, for each key.
  pub delete_keys : List String → Store → Store
  delete_keys [] s = s
  delete_keys (k ∷ ks) s = delete_keys ks (redis.del k s)

  get-delete_keys :
      (ks : List String) (j : String) (s : Store) {v : Response}
      → redis.get j (delete_keys ks s) ≡ some v
      → (text_in j ks ≡ false) × (redis.get j s ≡ some v)
  unfolding delete_keys text_in
  get-delete_keys [] j s h = (refl, h)
  get-delete_keys (k ∷ ks) j s {v} h =
      let a = get-delete_keys ks j (redis.del k s) {v = v} h in
      let b = redis.get-del j k s {v = v} a.1 in (ground (arith, a, b, eq_iff j k), b.1)

  module _ (env : Env) (r : Request) where
    -- `write`: a call of the services with the deletions behind it. `miss`: a request that finds
    -- nothing under its key stores what the handler returns. `fade`: entries expire. A request
    -- that finds its response changes nothing.
    pub data Step : World → Store → World → Store → Type 0 where
      write :
          (wr : Write) {w : World} {s : Store}
          → Step w s (perform env wr w) (delete_keys (perform env wr w).deleted s)
      miss :
          (k : Key) (v : Response) {w : World} {s : Store}
          → respond r k w.db ≡ some v
          → Step w s w (redis.set (key_text k) v s)
      fade :
          {w : World} {s : Store} (s' : Store)
          → ((j : String) (v : Response) → redis.get j s' ≡ some v → redis.get j s ≡ some v)
          → Step w s w s'

    pub data Reach (w₀ : World) (s₀ : Store) : World → Store → Type 0 where
      here : Reach w₀ s₀ w₀ s₀
      next : {w w' : World} {s s' : Store} → Reach w₀ s₀ w s → Step w s w' s' → Reach w₀ s₀ w' s'

    -- Every cached response is what the handler would answer now.
    unfoldable pub IsCoherent : World → Store → Type 0
    IsCoherent w s =
        (k : Key) (v : Response) → redis.get (key_text k) s ≡ some v → respond r k w.db ≡ some v

    Step-IsCoherent :
        {w w' : World} {s s' : Store} → Step w s w' s' → IsCoherent w s → IsCoherent w' s'
    unfolding IsCoherent
    Step-IsCoherent {w} {s = s} (write wr) c k v h =
        let w' = perform env wr w in
        let g = get-delete_keys w'.deleted (key_text k) s {v = v} h in
        elim (respond-Frame r w.db w'.db (Change-Frame (perform-Change env w wr)) k {v = v}
          (c k v g.1)) [ inl dropped ↦ absurd (ground (arith, dropped, g)) | inr same ↦ same ]
    Step-IsCoherent {s = s} (miss k v answered) c j u h =
        elim (redis.get-set (key_text j) (key_text k) v s {v = u} h) [
          | inl (e, f) ↦ rw (key_text_inj j k e, f) answered
          | inr old ↦ c j u old
        ]
    Step-IsCoherent (fade s' less) c k v h = c k v (less (key_text k) v h)

    -- For one request per key (one page, one enforcer) and a Redis that keeps the laws of SET and
    -- DEL: if every cached response is what the handler of its key answers, then it still is
    -- after any sequence of writing calls with their deletions, of requests that store what they
    -- found, and of expiries, each of them as one step.
    pub Reach-IsCoherent :
        {w₀ : World} {s₀ : Store} {w : World} {s : Store}
        → IsCoherent w₀ s₀
        → Reach w₀ s₀ w s
        → IsCoherent w s
    Reach-IsCoherent c here = c
    Reach-IsCoherent c (next run step) = Step-IsCoherent step (Reach-IsCoherent c run)
