-- ===== src/Dashboard/Session/SignedOut.antt =====
-- A session without a token.
use project_6_document_class.Base.{String, Bool, false, List, [], ◌∷◌, ◌≡◌, refl, ap, ◌∙◌, arith}
use project_6_document_class.Dashboard.{Fields, truthy}
use project_6_document_class.Dashboard.Client.{
  Python, Server, Web, HttpRequest, Outcome, value, api_error, attribute_error, ◌>>=◌,
}
use project_6_document_class.Dashboard.Loads.{Data, load_demo_dashboard}
use project_6_document_class.Dashboard.Session.{
  Session, Action, leave, correct, apply_role, invite, remove, act, run, render_app,
}

-- The corrections of the demo after some actions, the latest one first.
abbrev pub corrections : List Action → List (String × String) → List (String × String)
corrections [] made = made
corrections (correct id new_class ∷ rest) made = corrections rest ((id, new_class) ∷ made)
corrections (leave ∷ rest) made = corrections rest made
corrections (apply_role _ _ _ ∷ rest) made = corrections rest made
corrections (invite _ _ _ ∷ rest) made = corrections rest made
corrections (remove _ _ ∷ rest) made = corrections rest made

bind_value :
    {A B : Type 0} (m : Web A) (f : A → Web B) (sent : List HttpRequest) {a : A}
    {after : List HttpRequest}
    → m sent ≡ (value a, after)
    → (m >>= f) sent ≡ f a after
bind_value {A} m f sent e =
    ap
      (λ (x : Outcome A × List HttpRequest). elim x.0 [
        | value a ↦ f a x.1
        | api_error message ↦ (api_error message, x.1)
        | attribute_error ↦ (attribute_error, x.1)
      ])
      e

module _ (python : Python) (server : Server) (live_mode : Bool) where
  -- One action sends nothing, and leaves the session without a token.
  act_quiet :
      (a : Action) (s : Session) (sent : List HttpRequest)
      → truthy s.access_token ≡ false
      → (s' : Session) × (act python server live_mode a s sent ≡ (value s', sent))
        × (truthy s'.access_token ≡ false)
        × (corrections (a ∷ []) s.demo_relabels ≡ s'.demo_relabels)
  unfolding act
  act_quiet leave s sent out = (_, refl, refl, refl)
  act_quiet (correct id new_class) s sent out = (
    record s { demo_relabels = (id, new_class) ∷ s.demo_relabels },
    ground (arith, out),
    out,
    refl,
  )
  act_quiet (apply_role target_user user_id new_role) s sent out =
      (s, ground (arith, out), out, refl)
  act_quiet (invite email password role) s sent out = (s, ground (arith, out), out, refl)
  act_quiet (remove user_id confirmed) s sent out = (s, ground (arith, out), out, refl)

  -- The corrections of more actions go on from those of the first.
  corrections_step :
      (a : Action) (rest : List Action) (made : List (String × String))
      → corrections (a ∷ rest) made ≡ corrections rest (corrections (a ∷ []) made)
  corrections_step leave rest made = refl
  corrections_step (correct id new_class) rest made = refl
  corrections_step (apply_role _ _ _) rest made = refl
  corrections_step (invite _ _ _) rest made = refl
  corrections_step (remove _ _) rest made = refl

  run_quiet :
      (actions : List Action) (s : Session) (sent : List HttpRequest)
      → truthy s.access_token ≡ false
      → (s' : Session) × (run python server live_mode actions s sent ≡ (value s', sent))
        × (truthy s'.access_token ≡ false)
        × (corrections actions s.demo_relabels ≡ s'.demo_relabels)
  unfolding run
  run_quiet [] s sent out = (s, refl, out, refl)
  run_quiet (a ∷ rest) s sent out =
      let (t, e, out_t, c) = act_quiet a s sent out in
      let (u, k, out_u, d) = run_quiet rest t sent out_t in
      let first =
        bind_value (act python server live_mode a s) (run python server live_mode rest) sent e in
      (u, first ∙ k, out_u, corrections_step a rest s.demo_relabels ∙ ap (corrections rest) c ∙ d)

  -- In a session without a token, whatever a person does with the forms (a correction, another
  -- role, an invitation, a deletion, logging out), no request is sent and nothing is raised; the
  -- page then shows the demo with the corrections that were made, the latest one first, again
  -- without a request.
  pub signed_out :
      (actions : List Action) (demo : Data) (predictions : List Fields) (s : Session)
      (sent : List HttpRequest)
      → truthy s.access_token ≡ false
      → (s' : Session) × (run python server live_mode actions s sent ≡ (value s', sent))
        × (render_app python server demo predictions s' sent ≡ (
          value (load_demo_dashboard (corrections actions s.demo_relabels) demo predictions, false),
          sent,
        ))
  unfolding render_app
  signed_out actions demo predictions s sent out =
      let (s', e, out', c) = run_quiet actions s sent out in (s', e, rw c (ground (arith, out')))
