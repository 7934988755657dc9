-- ===== src/Dashboard/Tabs.antt =====
-- The tabs of streamlit-dashboard.py: which are there, what they offer to whom, and which rows
-- they show.
use Prim.Native.String.{◌++◌ as ◌+++◌}
use project_6_document_class.Base.{
  ℕ, String, Bool, true, false, not, ◌==◌, ◌&&◌, ◌||◌, List, [], ◌∷◌, ◌++◌, Option, none, some,
  count, select, if◌then◌else◌,
}
use project_6_document_class.Domain.Ieee.{at_least, less}
use project_6_document_class.Dashboard.{
  Parse, Value, text, get, is_text, truthy_field, confidence_value, review_limit, review_label,
  needs_review, ReviewLabel, corrected, auto,
}
use project_6_document_class.Dashboard.Client.{Python, Server, Web, request_json, json}
use project_6_document_class.Dashboard.Loads.{Data}

pub data Tab : Type 0 where
  overview batches upload review audit users : Tab

-- `user.get("role", "auditor")`
abbrev pub role_of : Value → Value
role_of user = elim (get "role" user) [ none ↦ text "auditor" | some r ↦ r ]

unfoldable pub tab_names : Value → List Tab
tab_names user =
    (overview ∷ batches ∷ upload ∷ review ∷ [])
    ++ ((if is_text "admin" (some (role_of user)) || is_text "auditor" (some (role_of user))
          then audit ∷ []
          else [])
        ++ (if is_text "admin" (some (role_of user)) then users ∷ [] else []))

-- `render_overview`: the numbers of a status, and of the predictions that need a review.
unfoldable pub status_count : String → Data → ℕ
status_count status shown = count (λ b. is_text status (get "status" b)) shown.batches

abbrev is_needs_review : ReviewLabel → Bool
is_needs_review needs_review = true
is_needs_review corrected = false
is_needs_review auto = false

unfoldable pub review_count : Parse → Data → ℕ
unfolding review_label
review_count float shown = count (λ p. is_needs_review (review_label float p)) shown.recent

-- `render_batches_tab`: the filter by a status, or `none` for all.
unfoldable pub filtered : Option String → Data → List Value
filtered none shown = shown.batches
filtered (some status) shown = select (λ b. is_text status (get "status" b)) shown.batches

-- `live_mode and token and base_url`
abbrev pub is_live : (token base_url : Option String) → (live_mode : Bool) → Bool
is_live token base_url live_mode = live_mode && is_given token && is_given base_url
  where
    is_given : Option String → Bool
    is_given none = false
    is_given (some s) = not (s == "")

-- `render_upload_tab`, up to the form.
pub data UploadTab : Type 0 where
  sign_in auditors_cannot file_uploader : UploadTab

unfoldable pub render_upload_tab :
    (token base_url : Option String) → Value → (live_mode : Bool) → UploadTab
render_upload_tab token base_url user live_mode =
    if not (is_live token base_url live_mode)
    then sign_in
    else if is_text "auditor" (get "role" user)
    then auditors_cannot
    else file_uploader

-- `render_review_tab`: nothing to show, the rows alone, the rows behind "Nothing needs review", or
-- the documents to pick from.
pub data ReviewTab : Type 0 where
  no_predictions : ReviewTab
  view_only nothing_needs_review : List Value → ReviewTab
  no_match : ReviewTab
  pick : List Value → ReviewTab

abbrev pub in_pool : Parse → Value → Bool
in_pool float p =
    less (confidence_value float (get "confidence" p)) review_limit
    && not (truthy_field (get "relabeled_class" p))

abbrev pub of_pool : (show_all : Bool) → (recent pool : List Value) → ReviewTab
of_pool show_all recent (p ∷ ps) = pick (p ∷ ps)
of_pool false recent [] = nothing_needs_review recent
of_pool true recent [] = no_match

abbrev of_recent : Parse → (show_all : Bool) → Value → List Value → ReviewTab
of_recent float show_all user [] = no_predictions
of_recent float show_all user (p ∷ ps) =
    if is_text "auditor" (get "role" user)
    then view_only (p ∷ ps)
    else of_pool show_all (p ∷ ps) (if show_all then p ∷ ps else select (in_pool float) (p ∷ ps))

unfoldable pub render_review_tab : Parse → (show_all : Bool) → Data → Value → ReviewTab
render_review_tab float show_all shown user = of_recent float show_all user shown.recent

-- Whether the button of the relabelling form is disabled.
unfoldable pub reviewer_blocked : Parse → Value → Value → Bool
reviewer_blocked float user p =
    is_text "reviewer" (get "role" user)
    && at_least review_limit (confidence_value float (get "confidence" p))

-- What the button does in a live session.
unfoldable pub save_correction :
    Python → Server → (base_url token : String) → (id new_class : String) → Web Value
unfolding request_json
save_correction python server base_url token id new_class =
    request_json python server "PATCH" base_url ("/predictions/" +++ (id +++ "/relabel"))
      (some token) [] (json (("relabeled_class", new_class) ∷ []))

-- `render_users_tab`: the accounts that the forms offer, all but the own one. An id is a text.
unfoldable pub other_users : Data → Value → List Value
other_users shown actor = select (λ u. not (same (get "id" u) (get "id" actor))) shown.users
  where
    same : Option Value → Option Value → Bool
    same none none = true
    same (some (text a)) (some (text b)) = a == b
    same _ _ = false
