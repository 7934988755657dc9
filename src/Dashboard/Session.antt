-- ===== src/Dashboard/Session.antt =====
-- The session of streamlit-dashboard.py: signing in and out, what a run of the page loads, and
-- what the forms of the tabs do. What a person chooses and types is an argument.
pub mod SignedOut
use Prim.Native.String.{◌++◌ as ◌+++◌}
use project_6_document_class.Base.{
  String, Bool, true, false, not, ◌==◌, ◌&&◌, ◌||◌, List, [], ◌∷◌, Option, none, some,
  if◌then◌else◌,
}
use project_6_document_class.Casbin.{strip}
use project_6_document_class.Dashboard.{
  Value, text, Fields, normalize_base_url, default_api_url, truthy, truthy_field, is_text, get,
}
use project_6_document_class.Dashboard.Client.{
  Python, Server, Outcome, value, api_error, attribute_error, Web, pure, bearer, login_to_api,
  invite_user, change_user_role, delete_user_api, ◌>>=◌, ◌>>◌,
}
use project_6_document_class.Dashboard.Loads.{Data, load_live_dashboard, load_demo_dashboard}
use project_6_document_class.Dashboard.Tabs.{is_live, save_correction}

-- `st.session_state`. The corrections of the demo are a dict, the latest one first.
pub record Session : Type 0 where
  pub api_base_url : String
  pub access_token : Value
  pub current_user : Option Value
  pub status_notice : String
  pub demo_relabels : List (String × String)
  pub invite_success : Option String

abbrev pub init_state : Session
init_state = record {
  api_base_url = default_api_url;
  access_token = text "";
  current_user = none;
  status_notice = "";
  demo_relabels = [];
  invite_success = none;
}

-- `try: ... except DashboardAPIError as exc: ...`
abbrev handle : {A : Type 0} → Web A → (String → A) → Web A
handle m f sent =
    let (r, sent') = m sent in
    elim r [
      | value x ↦ (value x, sent')
      | api_error message ↦ (value (f message), sent')
      | attribute_error ↦ (attribute_error, sent')
    ]

abbrev pub log_out : Session → Session
log_out s = record s { access_token = text ""; current_user = none; status_notice = "" }

-- The profile of the session in the demo, where the API is not available.
abbrev known_user : Session → Data → Data
known_user s shown = elim s.current_user [
  | none ↦ shown
  | some user ↦ if truthy user then record shown { user = user } else shown
]

-- What a person does with the forms of the tabs: a correction of a prediction, another role for
-- an account, an invitation, a deletion.
pub data Action : Type 0 where
  leave : Action
  correct : (id new_class : String) → Action
  apply_role : (target_user : Value) → (user_id new_role : String) → Action
  invite : (email password role : String) → Action
  remove : (user_id : String) → (confirmed : Bool) → Action

module _ (python : Python) (server : Server) where
  -- `st.session_state.access_token or None`
  abbrev pub session_token : Session → Option String
  session_token s =
      if truthy s.access_token then some (bearer python server s.access_token) else none

  -- The form of `render_sidebar`.
  unfoldable pub sign_in : (email password : String) → Session → Web Session
  unfolding login_to_api strip
  sign_in email password s =
      if strip email == "" || password == ""
      then pure (record s { status_notice = "Enter your email and password." })
      else handle
          (do
            (token, user) ← login_to_api python server s.api_base_url (strip email) password
            pure (record s { access_token = token; current_user = some user; status_notice = "" }))
          (λ message. record s { status_notice = message })

  -- What `render_app` shows, and whether it is live.
  unfoldable pub render_app : Data → List Fields → Session → Web (Data × Bool)
  unfolding load_live_dashboard load_demo_dashboard normalize_base_url
  render_app demo predictions s =
      let offline = load_demo_dashboard s.demo_relabels demo predictions in
      elim (session_token s) [
        | none ↦ pure (offline, false)
        | some token ↦
            handle
              (do
                shown ← load_live_dashboard python server (normalize_base_url s.api_base_url) token
                pure (shown, true))
              (λ _. (known_user s offline, false))
      ]

  -- `base_url if live_mode else None`
  abbrev base_url : Session → (live_mode : Bool) → Option String
  base_url s live_mode = if live_mode then some (normalize_base_url s.api_base_url) else none

  abbrev shown_error : Web Session → Session → Web Session
  shown_error m s = handle m (λ _. s)

  -- A form that needs a live session does nothing without one.
  abbrev live : Bool → Session → (String → String → Web Session) → Web Session
  live live_mode s f =
      if is_live (session_token s) (base_url s live_mode) live_mode
      then elim (session_token s) [
        | none ↦ pure s
        | some token ↦ f (normalize_base_url s.api_base_url) token
      ]
      else pure s

  unfoldable pub relabel_form : Bool → (id new_class : String) → Session → Web Session
  unfolding save_correction normalize_base_url
  relabel_form live_mode id new_class s =
      if is_live (session_token s) (base_url s live_mode) live_mode
      then live live_mode s (λ base token.
        shown_error (do _ ← save_correction python server base token id new_class; pure s) s)
      else pure (record s { demo_relabels = (id, new_class) ∷ s.demo_relabels })

  unfoldable pub change_role_form :
      Bool → Value → (user_id new_role : String) → Session → Web Session
  unfolding change_user_role normalize_base_url
  change_role_form live_mode target_user user_id new_role s = live live_mode s (λ base token.
      if is_text new_role (get "role" target_user)
      then pure s
      else shown_error (do _ ← change_user_role python server base token user_id new_role; pure s)
          s)

  -- The notice of an invitation is kept as the address that it names.
  unfoldable pub invite_form : Bool → (email password role : String) → Session → Web Session
  unfolding invite_user strip normalize_base_url
  invite_form live_mode email password role s = live live_mode s (λ base token.
      if strip email == "" || password == ""
      then pure s
      else shown_error
          (do
            _ ← invite_user python server base token (strip email) password role
            pure (record s { invite_success = some (strip email) }))
          s)

  unfoldable pub delete_form :
      Bool → (user_id : String) → (confirmed : Bool) → Session → Web Session
  unfolding delete_user_api normalize_base_url
  delete_form live_mode user_id confirmed s = live live_mode s (λ base token.
      if confirmed
      then shown_error (do _ ← delete_user_api python server base token user_id; pure s) s
      else pure s)

  unfoldable pub act : (live_mode : Bool) → Action → Session → Web Session
  unfolding relabel_form change_role_form invite_form delete_form
  act live_mode leave s = pure (log_out s)
  act live_mode (correct id new_class) s = relabel_form live_mode id new_class s
  act live_mode (apply_role target_user user_id new_role) s =
      change_role_form live_mode target_user user_id new_role s
  act live_mode (invite email password role) s = invite_form live_mode email password role s
  act live_mode (remove user_id confirmed) s = delete_form live_mode user_id confirmed s

  -- One action after another.
  unfoldable pub run : (live_mode : Bool) → List Action → Session → Web Session
  unfolding act
  run live_mode [] s = pure s
  run live_mode (a ∷ rest) s = do s' ← act live_mode a s; run live_mode rest s'
