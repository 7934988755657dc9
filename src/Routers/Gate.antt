-- ===== src/Routers/Gate.antt =====
-- The enforcer in front of the services: together they let no one through but whom the roles say.
use project_6_document_class.Base.{String, ◌≡◌, ◌≢◌, refl, [], ◌∙◌}
use project_6_document_class.Domain.{
  Role, admin, reviewer, auditor, User, UserCreate, UserRoleUpdate, PredictionRelabel, role_value,
}
use project_6_document_class.App.{Env, World}
use project_6_document_class.Casbin.{load_policy, enforce, policy_csv}
use project_6_document_class.Casbin.Matrix.{Endpoint, object, action, permits, policy_table}
use project_6_document_class.Routers.{
  Enforcer, http_exception, create_user, change_role, delete_user, relabel_prediction,
}

-- The enforcer decides as casbin/model.conf says, over the policy of casbin/policy.csv.
abbrev pub Decides : Enforcer → Type 0
Decides enforcer =
    (sub obj act : String) → enforcer sub obj act ≡ enforce (load_policy policy_csv []) sub obj act

module _ (enforcer : Enforcer) (decides : Decides enforcer) where
  -- What the enforcer answers for a role at an endpoint.
  asks : (r : Role) (e : Endpoint) → enforcer (role_value r) (object e) (action e) ≡ permits r e
  asks r e = decides (role_value r) (object e) (action e) ∙ policy_table r e

  -- If the enforcer decides by the policy file, then for an actor who is not an admin the
  -- endpoints that create a user, change a role and delete a user answer 403, and nothing has
  -- changed.
  pub users_closed :
      (env : Env) (id : String) (form : UserCreate) (update : UserRoleUpdate) (actor : User)
      (w : World)
      → actor.role ≢ admin
      → (create_user enforcer env form actor w ≡ (http_exception 403 "Forbidden", w))
        × (change_role enforcer env id update actor w ≡ (http_exception 403 "Forbidden", w))
        × (delete_user enforcer env id actor w ≡ (http_exception 403 "Forbidden", w))
  unfolding create_user change_role delete_user
  users_closed env id form update actor w ne = closed actor.role refl
    where
      closed :
          (r : Role)
          → actor.role ≡ r
          → (create_user enforcer env form actor w ≡ (http_exception 403 "Forbidden", w))
            × (change_role enforcer env id update actor w ≡ (http_exception 403 "Forbidden", w))
            × (delete_user enforcer env id actor w ≡ (http_exception 403 "Forbidden", w))
      closed admin e = absurd (ne e)
      closed reviewer e =
          rw
            (
              e,
              asks reviewer Endpoint.create_user,
              asks reviewer Endpoint.change_role,
              asks reviewer Endpoint.delete_user,
            )
            (refl, refl, refl)
      closed auditor e =
          rw
            (
              e,
              asks auditor Endpoint.create_user,
              asks auditor Endpoint.change_role,
              asks auditor Endpoint.delete_user,
            )
            (refl, refl, refl)

  -- An auditor cannot relabel.
  pub relabel_closed :
      (env : Env) (id : String) (update : PredictionRelabel) (actor : User) (w : World)
      → actor.role ≡ auditor
      → relabel_prediction enforcer env id update actor w ≡ (http_exception 403 "Forbidden", w)
  unfolding relabel_prediction
  relabel_closed env id update actor w e = rw (e, asks auditor Endpoint.relabel)
