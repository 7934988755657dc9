-- ===== src/Witnesses/Board.antt =====
-- The properties of the dashboard at concrete inputs.
use project_6_document_class.Base.{
  ◌≡◌, ◌≢◌, refl, true, false, ◌==◌, [], ◌∷◌, none, some, All, if◌then◌else◌, select,
}
use project_6_document_class.Domain.{reviewer, auditor, PredictionRelabel}
use project_6_document_class.App.{err, permission_denied, relabel_not_allowed}
use project_6_document_class.Repo.PredictionRepo
use project_6_document_class.PredictionService.{relabel}
use project_6_document_class.Dashboard.{
  Parse, Value, text, number, object, array, Fields, field, end, done,
}
use project_6_document_class.Dashboard.Client.{Python, Server, request_json}
use project_6_document_class.Dashboard.Loads.{Data, load_live_dashboard, load_demo_dashboard}
use project_6_document_class.Dashboard.Client
use project_6_document_class.Dashboard.Session.{
  Session, run, correct, remove, init_state, render_app,
}
use project_6_document_class.Dashboard.Session.SignedOut
use project_6_document_class.Dashboard.Permits
use project_6_document_class.Dashboard.Permits.{HasProfile}
use project_6_document_class.Dashboard.Tabs.{
  tab_names, render_upload_tab, render_review_tab, reviewer_blocked,
}
use project_6_document_class.Dashboard.Review
use project_6_document_class.Dashboard.Review.{shows}
use project_6_document_class.Witnesses.{office, env, prediction, half, person}

abbrev python : Python
python = record { str = λ v. "?"; decimal = λ n. "0" }

abbrev auditor_fields : Fields
auditor_fields = field "role" (text "auditor") end

-- A server that knows an auditor, has no batches, and refuses the audit log.
abbrev server : Server
server q =
    if q.path == "/users/me"
    then some (record {
      status_code = 200;
      content = 1 ∷ [];
      text = "";
      json = some (object auditor_fields);
    })
    else if q.path == "/audit/"
    then none
    else some (record { status_code = 200; content = 1 ∷ []; text = ""; json = some (array done) })

profile : HasProfile python server "http://api" "t" auditor
unfolding request_json
profile = (auditor_fields, refl, refl)

load_live_dashboard-Accepted_example :
    All
      (λ q. Permits.accepts auditor q ≡ true)
      (load_live_dashboard python server "http://api" "t" []).1
load_live_dashboard-Accepted_example =
    Permits.load_live_dashboard-Accepted python server "http://api" "t" auditor profile

-- The prediction of the office, as a row of the API.
abbrev shown_row : Value
shown_row = object (field "confidence" (number half) end)

-- No text of the rows is a number.
abbrev no_parse : Parse
no_parse s = none

abbrev shown : Data
shown = record {
  source = "Live data";
  user = object auditor_fields;
  batches = [];
  recent = shown_row ∷ [];
  users = [];
  audit = [];
}

abbrev reviewer_profile : Value
reviewer_profile = object (field "role" (text "reviewer") end)

tabs-permits_example :
    (shows Review.is_audit (tab_names reviewer_profile) ≡ false)
    × (shows Review.is_users (tab_names reviewer_profile) ≡ false)
    × (Review.offers_upload (render_upload_tab (some "t") (some "http://api") reviewer_profile true)
        ≡ true)
    × (Review.offers_form (render_review_tab no_parse true shown reviewer_profile) ≡ true)
tabs-permits_example =
    Review.tabs-permits no_parse (some "t") (some "http://api") reviewer reviewer_profile shown
      shown_row [] true refl refl refl

found_p : select (PredictionRepo.has_id "p") office.db.predictions ≡ prediction ∷ []
unfolding select
found_p = refl

form_is_open : reviewer_blocked no_parse reviewer_profile shown_row ≡ false
unfolding reviewer_blocked
form_is_open = refl

abbrev to_memo : PredictionRelabel
to_memo = record { relabeled_class = "memo" }

enabled_form_example :
    ((relabel env "p" to_memo (person "rae" reviewer) office).0 ≢ err (permission_denied "no"))
    × ((relabel env "p" to_memo (person "rae" reviewer) office).0 ≢ err (relabel_not_allowed "no"))
enabled_form_example =
    Review.enabled_form env "p" to_memo (person "rae" reviewer) office prediction found_p no_parse
      reviewer_profile shown_row refl refl refl form_is_open "no"

abbrev nothing_demo : Data
nothing_demo = record shown { source = "Demo mode"; recent = [] }

signed_out_example :
    (s' : Session) × (run python server false
        (correct "p" "memo" ∷ remove "u" true ∷ [])
        init_state
        []
      ≡ (Client.value s', []))
    × (render_app python server nothing_demo (auditor_fields ∷ []) s' [] ≡ (
      Client.value
          (load_demo_dashboard (("p", "memo") ∷ []) nothing_demo (auditor_fields ∷ []), false),
      [],
    ))
signed_out_example =
    SignedOut.signed_out python server false (correct "p" "memo" ∷ remove "u" true ∷ [])
      nothing_demo (auditor_fields ∷ []) init_state [] refl
