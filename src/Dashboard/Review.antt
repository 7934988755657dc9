-- ===== src/Dashboard/Review.antt =====
-- The dashboard's offers against the rules of the API.
use project_6_document_class.Base.{
  if◌then◌else◌, ◌≡◌, ◌≢◌, refl, String, Bool, true, false, List, [], ◌∷◌, Option, some, arith,
  select, exists, ◌&&◌, ◌||◌, Bool-cases, inl, inr,
}
use project_6_document_class.Domain.{
  Role, admin, reviewer, auditor, role_value, User, Prediction, PredictionRelabel,
}
use project_6_document_class.App.{Env, World, err, permission_denied, relabel_not_allowed}
use project_6_document_class.Repo.PredictionRepo
use project_6_document_class.PredictionService.{relabel}
use project_6_document_class.Casbin.Matrix.{Endpoint, permits}
use project_6_document_class.Dashboard.{Parse, Value, text, number, get, review_limit}
use project_6_document_class.Domain.Ieee.{at_least}
use project_6_document_class.Dashboard.Loads.{Data}
use project_6_document_class.Dashboard.Tabs.{
  Tab, tab_names, UploadTab, file_uploader, render_upload_tab, ReviewTab, pick, render_review_tab,
  is_live, of_pool, in_pool, reviewer_blocked, audit, users,
}

-- The profile of a user with this role.
abbrev pub HasRole : Value → Role → Type 0
HasRole user r = get "role" user ≡ some (text (role_value r))

abbrev pub is_audit : Tab → Bool
is_audit audit = true
is_audit _ = false

abbrev pub is_users : Tab → Bool
is_users users = true
is_users _ = false

abbrev pub shows : (Tab → Bool) → List Tab → Bool
shows p [] = false
shows p (t ∷ ts) = elim (p t) [ true ↦ true | false ↦ shows p ts ]

abbrev pub offers_upload : UploadTab → Bool
offers_upload file_uploader = true
offers_upload _ = false

-- The documents to pick from, with the form of the relabelling.
abbrev pub offers_form : ReviewTab → Bool
offers_form (pick _) = true
offers_form _ = false

offers_form-of_pool :
    (q : Value → Bool) (recent rows : List Value)
    → offers_form (of_pool false recent (select q rows)) ≡ exists q rows
unfolding select exists
offers_form-of_pool q recent [] = refl
offers_form-of_pool q recent (x ∷ xs) = elim (Bool-cases (q x)) [
  | inl e ↦ rw e refl
  | inr e ↦ rw e (offers_form-of_pool q recent xs)
]

offers_form-recent :
    (float : Parse) (show_all : Bool) (p : Value) (ps : List Value)
    → offers_form
        (of_pool show_all (p ∷ ps) (if show_all then p ∷ ps else select (in_pool float) (p ∷ ps)))
      ≡ show_all || exists (in_pool float) (p ∷ ps)
offers_form-recent float true p ps = refl
offers_form-recent float false p ps = offers_form-of_pool (in_pool float) (p ∷ ps) (p ∷ ps)

-- For a live session whose profile names a role, and some recent prediction: the audit tab, the
-- users tab and the upload form are shown exactly to the roles that the policy permits them, and
-- the relabelling form is offered exactly to the roles that may relabel, where all predictions
-- are asked for or one of them needs a review.
pub tabs-permits :
    (float : Parse) (token base_url : Option String) (r : Role) (user : Value) (shown : Data)
    (p : Value) (ps : List Value) (show_all : Bool)
    → HasRole user r
    → is_live token base_url true ≡ true
    → shown.recent ≡ p ∷ ps
    → (shows is_audit (tab_names user) ≡ permits r Endpoint.audit_log)
      × (shows is_users (tab_names user) ≡ permits r Endpoint.list_users)
      × (offers_upload (render_upload_tab token base_url user true) ≡ permits r Endpoint.upload)
      × (offers_form (render_review_tab float show_all shown user)
          ≡ permits r Endpoint.relabel && (show_all || exists (in_pool float) (p ∷ ps)))
unfolding tab_names render_upload_tab render_review_tab
tabs-permits float token base_url admin user shown p ps show_all h live e = (
  ground (arith, h),
  ground (arith, h),
  rw (live, h) refl,
  rw (e, h) (offers_form-recent float show_all p ps),
)
tabs-permits float token base_url reviewer user shown p ps show_all h live e = (
  ground (arith, h),
  ground (arith, h),
  rw (live, h) refl,
  rw (e, h) (offers_form-recent float show_all p ps),
)
tabs-permits float token base_url auditor user shown p ps show_all h live e =
    (ground (arith, h), ground (arith, h), rw (live, h) refl, rw (e, h) refl)

-- The row of a prediction, as the API shows it.
abbrev pub Shows : Value → Prediction → Type 0
Shows p x = get "confidence" p ≡ some (number x.confidence)

module _ (env : Env) (id : String) (u : PredictionRelabel) (actor : User) (w : World)
    (x : Prediction) (found : select (PredictionRepo.has_id id) w.db.predictions ≡ x ∷ [])
    (float : Parse) (user p : Value) (named : HasRole user actor.role) (shown : Shows p x) where
  -- If the actor's role may relabel, the profile names that role, the row shows the confidence of
  -- a prediction that is alone under its id, and the form is not disabled, then the relabelling
  -- by the service fails neither for the actor's role nor for the confidence.
  pub enabled_form :
      permits actor.role Endpoint.relabel ≡ true
      → reviewer_blocked float user p ≡ false
      → (message : String)
      → ((relabel env id u actor w).0 ≢ err (permission_denied message))
        × ((relabel env id u actor w).0 ≢ err (relabel_not_allowed message))
  unfolding relabel reviewer_blocked
  enabled_form may open_form message = by_role actor.role refl
    where
      by_role :
          (r : Role)
          → actor.role ≡ r
          → ((relabel env id u actor w).0 ≢ err (permission_denied message))
            × ((relabel env id u actor w).0 ≢ err (relabel_not_allowed message))
      by_role admin e = (λ h. ground (arith, e, found), λ h. ground (arith, e, found))
      by_role reviewer e =
          let low : at_least review_limit x.confidence ≡ false =
            rw (named, e, shown) at open_form in
          (λ h. ground (arith, e, found, low), λ h. ground (arith, e, found, low))
      by_role auditor e = absurd (ground (arith, e))
