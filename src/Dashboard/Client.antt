-- ===== src/Dashboard/Client.antt =====
-- The API client of streamlit-dashboard.py. The server behind httpx is an argument, and so are the
-- texts that Python's `str` gives.
use Prim.Native.String.{[] as empty, ◌∷◌ as ◌:::◌, ◌++◌ as ◌+++◌}
use Prim.Native.Char.{code}
use project_6_document_class.Base.{
  ℕ, String, Bool, true, false, ◌==◌, ◌&&◌, ◌||◌, eqb, leb, List, [], ◌∷◌, ◌++◌, Option, none, some,
  map, if◌then◌else◌,
}
use project_6_document_class.Blob.{Bytes}
use project_6_document_class.Casbin.{strip}
use project_6_document_class.Dashboard.{
  Value, null, text, array, object, lookup, items, normalize_base_url, truthy,
}

-- What a request carries: nothing, `data=` or `json=`.
pub data Body : Type 0 where
  no_body : Body
  data_form json : List (String × String) → Body

pub record HttpRequest : Type 0 where
  pub method : String
  pub url : String
  -- the part behind the address of the API
  pub path : String
  pub token : Option String
  pub params : List (String × ℕ)
  pub body : Body

pub record HttpResponse : Type 0 where
  pub status_code : ℕ
  pub content : Bytes
  pub text : String
  -- what `response.json()` returns, if it does not raise
  pub json : Option Value

-- `none` is an `httpx.RequestError`.
abbrev pub Server : Type 0
Server = HttpRequest → Option HttpResponse

-- `str` of a value and of a number.
pub record Python : Type 0 where
  pub str : Value → String
  pub decimal : ℕ → String

-- What a function of the dashboard ends in: a value, a `DashboardAPIError`, or the
-- `AttributeError` of a `.get` on what is no dict.
pub data Outcome (A : Type 0) : Type 0 where
  value : A → Outcome A
  api_error : String → Outcome A
  attribute_error : Outcome A

-- A computation with the requests that it sends, the last one sent last.
abbrev pub Web : Type 0 → Type 0
Web A = List HttpRequest → Outcome A × List HttpRequest

module _ {A : Type 0} where
  abbrev pub pure : A → Web A
  pure a sent = (value a, sent)

  abbrev pub raise : String → Web A
  raise message sent = (api_error message, sent)

  abbrev pub crash : Web A
  crash sent = (attribute_error, sent)

  -- `try: ... except DashboardAPIError: ...`
  abbrev pub recover : Web A → A → Web A
  recover m a sent =
      let (r, sent') = m sent in
      elim r [
        | value x ↦ (value x, sent')
        | api_error message ↦ (value a, sent')
        | attribute_error ↦ (attribute_error, sent')
      ]

infixl 5 ◌>>=◌ ◌>>◌
abbrev pub ◌>>=◌ : {A B : Type 0} → Web A → (A → Web B) → Web B
◌>>=◌ m f sent =
    let (r, sent') = m sent in
    elim r [
      | value a ↦ f a sent'
      | api_error message ↦ (api_error message, sent')
      | attribute_error ↦ (attribute_error, sent')
    ]

abbrev pub ◌>>◌ : {A B : Type 0} → Web A → Web B → Web B
m >> k = m >>= λ _. k

-- `"; ".join(...)`
abbrev join : List String → String
join [] = ""
join (s ∷ []) = s
join (s ∷ t ∷ rest) = s +++ ("; " +++ join (t ∷ rest))

abbrev starts_with_slash : String → Bool
starts_with_slash empty = false
starts_with_slash (c ::: s) = eqb (code c) b'/'

-- `if token:`
abbrev if_given : Option String → Option String
if_given none = none
if_given (some token) = if token == "" then none else some token

abbrev absolute : String → String
absolute path = if starts_with_slash path then path else "/" +++ path

module _ (python : Python) where
  abbrev or_status : HttpResponse → String
  or_status r =
      let t = strip r.text in if t == "" then "HTTP " +++ python.decimal r.status_code else t

  abbrev of_detail : HttpResponse → Option Value → String
  of_detail r (some (text detail)) = detail
  of_detail r (some (array details)) = join (map python.str (items details))
  of_detail r _ = or_status r

  unfoldable pub extract_error_message : HttpResponse → String
  unfolding strip
  extract_error_message r = elim r.json [
    | some (object payload) ↦ of_detail r (lookup "detail" payload)
    | _ ↦ or_status r
  ]

  abbrev pub is_error : ℕ → Bool
  is_error status = leb 400 status && leb status 599

  abbrev of_json : Option Value → Outcome Value
  of_json none = api_error "API returned unreadable data."
  of_json (some v) = value v

  abbrev of_response : String → Option HttpResponse → Outcome Value
  of_response base none = api_error ("Cannot reach " +++ (normalize_base_url base +++ "."))
  of_response base (some r) =
      if is_error r.status_code
      then api_error (extract_error_message r)
      else if eqb r.status_code 204 || is_empty r.content
      then value null
      else of_json r.json
    where
      is_empty : Bytes → Bool
      is_empty [] = true
      is_empty (b ∷ bs) = false

  module _ (server : Server) where
    unfoldable pub request_json :
        (method base_url path : String) → Option String → List (String × ℕ) → Body → Web Value
    unfolding normalize_base_url extract_error_message
    request_json method base_url path token params body sent =
        let request : HttpRequest = record {
          method = method;
          url = normalize_base_url base_url +++ absolute path;
          path = path;
          token = if_given token;
          params = params;
          body = body;
        } in
        (of_response base_url (server request), sent ++ request ∷ [])

    -- `(auth or {}).get("access_token")`: a value that is true and no dict has no `get`.
    abbrev token_of : Value → Web (Option Value)
    token_of (object fields) = pure (lookup "access_token" fields)
    token_of v = if truthy v then crash else pure none

    abbrev needs_token : Option Value → Web Value
    needs_token none = raise "Login succeeded but no token was returned."
    needs_token (some v) =
        if truthy v then pure v else raise "Login succeeded but no token was returned."

    -- The token as it stands in the header.
    abbrev pub bearer : Value → String
    bearer (text token) = token
    bearer v = python.str v

    -- `if not isinstance(result, dict): raise ...`
    abbrev needs_dict : String → Value → Web Value
    needs_dict message (object fields) = pure (object fields)
    needs_dict message _ = raise message

    unfoldable pub login_to_api : (base_url email password : String) → Web (Value × Value)
    unfolding request_json
    login_to_api base_url email password = do
      auth ←
          request_json "POST" base_url "/auth/jwt/login" none []
            (data_form (("username", email) ∷ ("password", password) ∷ []))
      given ← token_of auth
      token ← needs_token given
      user ← request_json "GET" base_url "/users/me" (some (bearer token)) [] no_body
      profile ← needs_dict "Login succeeded but user profile could not be loaded." user
      pure (token, profile)

    unfoldable pub invite_user : (base_url token email password role : String) → Web Value
    unfolding request_json
    invite_user base_url token email password role = do
      result ←
          request_json "POST" base_url "/users/" (some token) []
            (json (("email", email) ∷ ("password", password) ∷ ("role", role) ∷ []))
      needs_dict "User created but response was unreadable." result

    unfoldable pub change_user_role : (base_url token user_id role : String) → Web Value
    unfolding request_json
    change_user_role base_url token user_id role = do
      result ←
          request_json "PATCH" base_url ("/users/" +++ (user_id +++ "/role")) (some token) []
            (json (("role", role) ∷ []))
      needs_dict "Role updated but response was unreadable." result

    unfoldable pub delete_user_api : (base_url token user_id : String) → Web Unit
    unfolding request_json
    delete_user_api base_url token user_id = do
      _ ← request_json "DELETE" base_url ("/users/" +++ user_id) (some token) [] no_body
      pure tt
