-- ===== src/Dashboard/Permits.antt =====
-- The live load against the access policy of the API.
use project_6_document_class.Base.{
  ℕ, ◌≡◌, refl, sym, ◌∙◌, ◌⊎◌, inl, inr, String, Bool, true, false, ◌==◌, ◌&&◌, leb, List, [], ◌∷◌,
  ◌++◌, some, All, All-append, if◌then◌else◌,
}
use project_6_document_class.Domain.{Role, admin, reviewer, auditor, role_value}
use project_6_document_class.Casbin.Matrix.{Endpoint, permits}
use project_6_document_class.Dashboard.{
  list_or_empty, field, end, Value, text, object, Fields, lookup, get,
}
use project_6_document_class.Dashboard.Client.{
  Python, Server, HttpRequest, Outcome, value, api_error, attribute_error, Web, pure, request_json,
  recover, ◌>>=◌,
}
use project_6_document_class.Dashboard.Loads.{
  users_of, fetch, load_live_dashboard, load_users, load_audit, live_data, with_users, with_recent,
  with_batches, with_me, or_dict,
}

-- The endpoint behind a GET of the dashboard and what its handler demands: the guard of the
-- policy, and the bounds of `limit`. The profile is open to every user.
abbrev limit_of : List (String × ℕ) → ℕ
limit_of [] = 0
limit_of ((k, n) ∷ rest) = if k == "limit" then n else limit_of rest

abbrev in_bounds : ℕ → HttpRequest → Bool
in_bounds hi q = leb 1 (limit_of q.params) && leb (limit_of q.params) hi

abbrev pub accepts : Role → HttpRequest → Bool
accepts r q =
    if q.path == "/users/me"
    then true
    else if q.path == "/batches/"
    then permits r Endpoint.list_batches && in_bounds 200 q
    else if q.path == "/predictions/recent"
    then permits r Endpoint.recent_predictions && in_bounds 100 q
    else if q.path == "/users/"
    then permits r Endpoint.list_users && in_bounds 200 q
    else if q.path == "/audit/"
    then permits r Endpoint.audit_log && in_bounds 500 q
    else false

-- The profile that `/users/me` answers names this role.
abbrev pub HasProfile : Python → Server → String → String → Role → Type 0
HasProfile python server base_url token r =
    (fields : Fields) × ((fetch python server base_url token "/users/me" [] []).0
      ≡ value (object fields))
    × (lookup "role" fields ≡ some (text (role_value r)))

Outcome-cases :
    {A : Type 0} (o : Outcome A)
    → ((a : A) × (o ≡ value a)) ⊎ ((m : String) × (o ≡ api_error m)) ⊎ (o ≡ attribute_error)
Outcome-cases (value a) = inl (a, refl)
Outcome-cases (api_error m) = inr (inl (m, refl))
Outcome-cases attribute_error = inr (inr refl)

module _ (python : Python) (server : Server) (base_url token : String) where
  one_request :
      (path : String) (params : List (String × ℕ)) (sent : List HttpRequest)
      → (q : HttpRequest) × ((fetch python server base_url token path params sent).1
          ≡ sent ++ q ∷ [])
        × (q.path ≡ path)
        × (q.params ≡ params)
        × ((fetch python server base_url token path params sent).0
            ≡ (fetch python server base_url token path params []).0)
  unfolding request_json
  one_request path params sent = (_, refl, refl, refl, refl)

  abbrev pub Accepted : Role → List HttpRequest → Type 0
  Accepted r = All (λ q. accepts r q ≡ true)

  fetch-Accepted :
      (r : Role) (path : String) (params : List (String × ℕ)) (sent : List HttpRequest)
      → ((q : HttpRequest) → q.path ≡ path → q.params ≡ params → accepts r q ≡ true)
      → Accepted r sent
      → Accepted r (fetch python server base_url token path params sent).1
  fetch-Accepted r path params sent ok a =
      let (q, e, p, l, _) = one_request path params sent in
      rw e (All-append (λ x. accepts r x ≡ true) sent (q ∷ []) a (ok q p l, tt))

  -- A computation whose requests are accepted if those before it are.
  abbrev Keeps : Role → {A : Type 0} → Web A → Type 0
  Keeps r m = (sent : List HttpRequest) → Accepted r sent → Accepted r (m sent).1

  -- The second part counts only for the values that the first one returns.
  Keeps-bind :
      (r : Role) {A B : Type 0} (m : Web A) (f : A → Web B)
      → Keeps r m
      → ((a : A) (s : List HttpRequest) → (m s).0 ≡ value a → Keeps r (f a))
      → Keeps r (m >>= f)
  Keeps-bind r {A} m f km kf sent a = elim (Outcome-cases (m sent).0) [
    | inl (x, e) ↦ rw (◌>>=◌, e) (kf x sent e (m sent).1 (km sent a))
    | inr (inl (_, e)) ↦ rw (◌>>=◌, e) (km sent a)
    | inr (inr e) ↦ rw (◌>>=◌, e) (km sent a)
  ]

  Keeps-recover : (r : Role) {A : Type 0} (m : Web A) (x : A) → Keeps r m → Keeps r (recover m x)
  Keeps-recover r m x km sent a = elim (Outcome-cases (m sent).0) [
    | inl (_, e) ↦ rw (recover, e) (km sent a)
    | inr (inl (_, e)) ↦ rw (recover, e) (km sent a)
    | inr (inr e) ↦ rw (recover, e) (km sent a)
  ]

  fetch_all :
      (r : Role) (path : String) (params : List (String × ℕ))
      → ((q : HttpRequest) → q.path ≡ path → q.params ≡ params → accepts r q ≡ true)
      → Keeps r (fetch python server base_url token path params)
  fetch_all r path params ok sent a = fetch-Accepted r path params sent ok a

  abbrev users_request : Web (List Value)
  users_request = do
    resp ← fetch python server base_url token "/users/" (("skip", 0) ∷ ("limit", 100) ∷ [])
    pure (users_of resp)

  abbrev audit_request : Web (List Value)
  audit_request = do
    resp ← fetch python server base_url token "/audit/" (("limit", 200) ∷ [])
    pure (list_or_empty resp)

  users_request_all : Keeps admin users_request
  users_request_all =
      Keeps-bind admin
        (fetch python server base_url token "/users/" (("skip", 0) ∷ ("limit", 100) ∷ []))
        (λ resp. pure (users_of resp))
        (fetch_all admin "/users/" (("skip", 0) ∷ ("limit", 100) ∷ []) (λ q p l. rw (p, l) refl))
        (λ v s k sent a. a)

  audit_request_all : (r : Role) → permits r Endpoint.audit_log ≡ true → Keeps r audit_request
  audit_request_all r may =
      Keeps-bind r (fetch python server base_url token "/audit/" (("limit", 200) ∷ []))
        (λ resp. pure (list_or_empty resp))
        (fetch_all r "/audit/" (("limit", 200) ∷ []) (λ q p l. rw (p, l, may) refl))
        (λ v s k sent a. a)

  load_users_all :
      (r : Role) (user : Value)
      → get "role" user ≡ some (text (role_value r))
      → Keeps r (load_users python server base_url token user)
  load_users_all admin user e = rw e (Keeps-recover admin users_request [] users_request_all)
  load_users_all reviewer user e = rw e (λ sent a. a)
  load_users_all auditor user e = rw e (λ sent a. a)

  load_audit_all :
      (r : Role) (user : Value)
      → get "role" user ≡ some (text (role_value r))
      → Keeps r (load_audit python server base_url token user)
  load_audit_all admin user e =
      rw e (Keeps-recover admin audit_request [] (audit_request_all admin refl))
  load_audit_all auditor user e =
      rw e (Keeps-recover auditor audit_request [] (audit_request_all auditor refl))
  load_audit_all reviewer user e = rw e (λ sent a. a)

  reads_all :
      (r : Role) (path : String)
      → (path ≡ "/batches/") ⊎ (path ≡ "/predictions/recent")
      → (params : List (String × ℕ)) → limit_of params ≡ 50
      → Keeps r (fetch python server base_url token path params)
  reads_all r path which params l = fetch_all r path params (λ q p e. ok r which q p e)
    where
      ok :
          (r : Role)
          → (path ≡ "/batches/") ⊎ (path ≡ "/predictions/recent")
          → (q : HttpRequest) → q.path ≡ path
          → q.params ≡ params
          → accepts r q ≡ true
      ok admin (inl w) q p e = rw (p, w, e, l) refl
      ok reviewer (inl w) q p e = rw (p, w, e, l) refl
      ok auditor (inl w) q p e = rw (p, w, e, l) refl
      ok admin (inr w) q p e = rw (p, w, e, l) refl
      ok reviewer (inr w) q p e = rw (p, w, e, l) refl
      ok auditor (inr w) q p e = rw (p, w, e, l) refl

  role_of_dict :
      (fields : Fields) (t : Value)
      → lookup "role" fields ≡ some t
      → get "role" (or_dict (object fields)) ≡ some t
  role_of_dict end t h = cc
  role_of_dict (field k v fs) t h = h

  tail_all :
      (r : Role) (me : Value)
      → get "role" (or_dict me) ≡ some (text (role_value r))
      → (batches recent : Value)
      → Keeps r (with_recent python server base_url token me batches recent)
  tail_all r me e batches recent =
      Keeps-bind r (load_users python server base_url token (or_dict me))
        (with_users python server base_url token me batches recent)
        (load_users_all r (or_dict me) e)
        (λ users _ _.
          Keeps-bind r (load_audit python server base_url token (or_dict me))
            (λ audit. pure (live_data me batches recent users audit))
            (load_audit_all r (or_dict me) e) (λ _ _ _ sent a. a))

  with_me_all :
      (r : Role) (me : Value)
      → get "role" (or_dict me) ≡ some (text (role_value r))
      → Keeps r (with_me python server base_url token me)
  with_me_all r me e =
      Keeps-bind r
        (fetch python server base_url token "/batches/" (("skip", 0) ∷ ("limit", 50) ∷ []))
        (with_batches python server base_url token me)
        (reads_all r "/batches/" (inl refl) (("skip", 0) ∷ ("limit", 50) ∷ []) refl)
        (λ batches _ _.
          Keeps-bind r
            (fetch python server base_url token "/predictions/recent" (("limit", 50) ∷ []))
            (with_recent python server base_url token me batches)
            (reads_all r "/predictions/recent" (inr refl) (("limit", 50) ∷ []) refl)
            (λ recent _ _. tail_all r me e batches recent))

  -- If the API answers the profile request with a dict that names a role, then every request of
  -- the live load, whatever the server answers to the others, goes to an endpoint that the policy
  -- permits to the role, with a limit within the bounds of its handler.
  pub load_live_dashboard-Accepted :
      (r : Role)
      → HasProfile python server base_url token r
      → Accepted r (load_live_dashboard python server base_url token []).1
  unfolding load_live_dashboard
  load_live_dashboard-Accepted r (fields, answered, named) =
      Keeps-bind r (fetch python server base_url token "/users/me" [])
        (with_me python server base_url token) (fetch_all r "/users/me" [] (λ q p l. rw p refl))
        (λ me s k. with_me_all r me (
          rw (value_inj (sym k ∙ (one_request "/users/me" [] s).4 ∙ answered))
            (role_of_dict fields (text (role_value r)) named)))
        [] tt
    where
      value_inj : {a b : Value} → value a ≡ value b → a ≡ b
      value_inj h = cc
