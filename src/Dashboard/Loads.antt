-- ===== src/Dashboard/Loads.antt =====
-- The loaders of streamlit-dashboard.py.
use Prim.Native.String.{◌++◌ as ◌+++◌}
use project_6_document_class.Base.{
  ℕ, String, Bool, ◌==◌, ◌||◌, List, [], ◌∷◌, Option, none, some, map, select, if◌then◌else◌,
}
use project_6_document_class.Dashboard.{
  Value, text, array, object, Fields, field, end, lookup, get, truthy, list_or_empty, is_text,
}
use project_6_document_class.Dashboard.Client.{
  Python, Server, Web, pure, recover, request_json, no_body, ◌>>=◌,
}

pub record Data : Type 0 where
  pub source : String
  pub user : Value
  pub batches : List Value
  pub recent : List Value
  pub users : List Value
  pub audit : List Value

-- `... or {}`
abbrev pub or_dict : Value → Value
or_dict v = if truthy v then v else object end

-- What `/users/` answered, as a list: a list, or the list in a dict under "value".
abbrev pub users_of : Value → List Value
users_of (array vs) = list_or_empty (array vs)
users_of (object fields) = elim (lookup "value" fields) [ none ↦ [] | some v ↦ list_or_empty v ]
users_of _ = []

-- `role in ("admin", "auditor")`
abbrev pub sees_audit : Value → Bool
sees_audit user = is_text "admin" (get "role" user) || is_text "auditor" (get "role" user)

-- The dict that a live load returns.
abbrev pub live_data : (me batches recent : Value) → (users audit : List Value) → Data
live_data me batches recent users audit = record {
  source = "Live data";
  user = or_dict me;
  batches = list_or_empty batches;
  recent = list_or_empty recent;
  users = users;
  audit = audit;
}

module _ (python : Python) (server : Server) where
  abbrev pub fetch : (base_url token path : String) → List (String × ℕ) → Web Value
  fetch base_url token path params =
      request_json python server "GET" base_url path (some token) params no_body

  abbrev pub load_users : (base_url token : String) → Value → Web (List Value)
  load_users base_url token user =
      if is_text "admin" (get "role" user)
      then recover
          (do
            resp ← fetch base_url token "/users/" (("skip", 0) ∷ ("limit", 100) ∷ [])
            pure (users_of resp))
          []
      else pure []

  abbrev pub load_audit : (base_url token : String) → Value → Web (List Value)
  load_audit base_url token user =
      if sees_audit user
      then recover
          (do
            resp ← fetch base_url token "/audit/" (("limit", 200) ∷ [])
            pure (list_or_empty resp))
          []
      else pure []

  -- The steps of `load_live_dashboard`, the last one first.
  abbrev pub with_users :
      (base_url token : String) → (me batches recent : Value) → List Value → Web Data
  with_users base_url token me batches recent users = do
    audit ← load_audit base_url token (or_dict me)
    pure (live_data me batches recent users audit)

  abbrev pub with_recent : (base_url token : String) → (me batches recent : Value) → Web Data
  with_recent base_url token me batches recent = do
    users ← load_users base_url token (or_dict me)
    with_users base_url token me batches recent users

  abbrev pub with_batches : (base_url token : String) → (me batches : Value) → Web Data
  with_batches base_url token me batches = do
    recent ← fetch base_url token "/predictions/recent" (("limit", 50) ∷ [])
    with_recent base_url token me batches recent

  abbrev pub with_me : (base_url token : String) → Value → Web Data
  with_me base_url token me = do
    batches ← fetch base_url token "/batches/" (("skip", 0) ∷ ("limit", 50) ∷ [])
    with_batches base_url token me batches

  unfoldable pub load_live_dashboard : (base_url token : String) → Web Data
  load_live_dashboard base_url token = do
    me ← fetch base_url token "/users/me" []
    with_me base_url token me

  abbrev of_batch : String → List Value → List Value
  of_batch batch_id = select (λ p. is_text batch_id (get "batch_id" p))

  -- Without a session, and when the API fails, the recent predictions serve.
  unfoldable pub fetch_batch_predictions :
      String → Data → Option String → Option String → Web (List Value)
  unfolding request_json
  fetch_batch_predictions batch_id shown (some token) (some base_url) =
      if token == "" || base_url == ""
      then pure (of_batch batch_id shown.recent)
      else recover
          (do
            result ← fetch base_url token ("/predictions/batch/" +++ batch_id) []
            pure (list_or_empty result))
          (of_batch batch_id shown.recent)
  fetch_batch_predictions batch_id shown _ _ = pure (of_batch batch_id shown.recent)

-- `overrides[copy["id"]]`, the latest correction of the session for that id.
abbrev override : List (String × String) → Option Value → Option String
override [] id = none
override ((k, c) ∷ rest) id = if is_text k id then some c else override rest id

-- `copy["relabeled_class"] = c`: in its place, or at the end.
abbrev put_field : String → Value → Fields → Fields
put_field key v end = field key v end
put_field key v (field k u fs) = if k == key then field k v fs else field k u (put_field key v fs)

abbrev relabelled : List (String × String) → Fields → Fields
relabelled overrides p = elim (override overrides (lookup "id" p)) [
  | none ↦ p
  | some c ↦ put_field "relabeled_class" (text c) p
]

-- The demo data is an argument; `demo_relabels` is the list of the corrections.
unfoldable pub load_demo_dashboard : List (String × String) → Data → List Fields → Data
load_demo_dashboard overrides demo predictions = record demo {
  source = "Demo mode";
  recent = map (λ p. object (relabelled overrides p)) predictions;
}
