-- ===== src/Routers.antt =====
-- app/api/routers/{users,batches,predictions,audit}.py: the handlers, behind the enforcer. What
-- the decorator `@cache` answers without a call of the handler is not part of this.
pub mod Gate
use project_6_document_class.Base.{
  ℕ, String, Bool, true, false, not, ◌&&◌, leb, List, [], ◌∷◌, if◌then◌else◌,
}
use project_6_document_class.Domain.{
  User, UserCreate, UserRoleUpdate, Batch, Prediction, PredictionRelabel, AuditLogEntry, role_value,
}
use project_6_document_class.Db.{UserRow, BatchRow}
use project_6_document_class.App.{
  Env, App, World, Result, ok, err, Error, permission_denied, not_found, last_admin,
  relabel_not_allowed,
}
use project_6_document_class.Repo.OrderBy.{OrderBy}
use project_6_document_class.UserService
use project_6_document_class.BatchService
use project_6_document_class.PredictionService

-- What a handler ends in: a value, an `HTTPException`, or an exception that it lets through.
pub data Reply (A : Type 0) : Type 0 where
  reply : A → Reply A
  http_exception : ℕ → String → Reply A
  unhandled : Error → Reply A

abbrev pub Handler : Type 0 → Type 0
Handler A = World → Reply A × World

-- `if not enforcer.enforce(actor.role.value, obj, act): raise HTTPException(403, "Forbidden")`
abbrev pub guarded : {A : Type 0} → Bool → Handler A → Handler A
guarded allowed h w = if allowed then h w else (http_exception 403 "Forbidden", w)

-- `try: return await ...; except ...`
abbrev pub answer : {A : Type 0} → (Error → Reply A) → App A → Handler A
answer on_error m w =
    let (r, w') = m w in elim r [ ok a ↦ (reply a, w') | err e ↦ (on_error e, w') ]

-- FastAPI's test of a query parameter, `Query(ge=lo, le=hi)`.
abbrev pub within : {A : Type 0} → ℕ → ℕ → ℕ → Handler A → Handler A
within lo hi n h w =
    if leb lo n && leb n hi then h w else (http_exception 422 "Unprocessable Entity", w)

abbrev pub Enforcer : Type 0
Enforcer = String → String → String → Bool

abbrev on_denied : {A : Type 0} → Error → Reply A
on_denied (permission_denied _) = http_exception 403 "Forbidden"
on_denied e = unhandled e

abbrev on_change_role : {A : Type 0} → Error → Reply A
on_change_role (permission_denied _) = http_exception 403 "Forbidden"
on_change_role (not_found _) = http_exception 404 "User not found"
on_change_role (last_admin _) = http_exception 400 "Cannot demote the last admin"
on_change_role e = unhandled e

abbrev on_delete_user : {A : Type 0} → Error → Reply A
on_delete_user (permission_denied message) = http_exception 403 message
on_delete_user (not_found _) = http_exception 404 "User not found"
on_delete_user (last_admin message) = http_exception 400 message
on_delete_user e = unhandled e

abbrev on_get_batch : {A : Type 0} → Error → Reply A
on_get_batch (not_found _) = http_exception 404 "Batch not found"
on_get_batch e = unhandled e

abbrev on_relabel : {A : Type 0} → Error → Reply A
on_relabel (permission_denied _) = http_exception 403 "Forbidden"
on_relabel (relabel_not_allowed _) =
    http_exception 403 "Reviewers may only relabel low-confidence predictions"
on_relabel (not_found _) = http_exception 404 "Prediction not found"
on_relabel e = unhandled e

unfoldable pub get_me : User → Handler User
get_me user = answer unhandled (UserService.get_me user.id)

module _ (enforcer : Enforcer) where
  abbrev may : User → String → String → Bool
  may actor obj act = enforcer (role_value actor.role) obj act

  -- The bounds of `skip` have no upper end.
  unfoldable pub list_users :
      OrderBy {A = UserRow} (λ u. u.created_at) → ℕ → ℕ → User → Handler (List User)
  list_users order skip limit actor = within 1 200 limit (
      guarded (may actor "/users" "GET")
        (answer on_denied (UserService.list_users order actor skip limit)))

  unfoldable pub create_user : Env → UserCreate → User → Handler User
  create_user env form actor =
      guarded (may actor "/users" "POST")
        (answer on_denied (UserService.create_user env form actor))

  unfoldable pub change_role : Env → String → UserRoleUpdate → User → Handler User
  change_role env user_id update actor =
      guarded (may actor "/users/role" "PATCH")
        (answer on_change_role (UserService.change_role env user_id update actor))

  unfoldable pub delete_user : Env → String → User → Handler Unit
  delete_user env user_id actor =
      guarded (may actor "/users/delete" "DELETE")
        (answer on_delete_user (UserService.delete_user env user_id actor))

  unfoldable pub list_batches :
      OrderBy {A = BatchRow} (λ b. b.created_at) → ℕ → ℕ → User → Handler (List Batch)
  list_batches order skip limit actor = within 1 200 limit (
      guarded (may actor "/batches" "GET")
        (answer unhandled (BatchService.list_batches order skip limit)))

  unfoldable pub get_batch : String → User → Handler Batch
  get_batch batch_id actor =
      guarded (may actor "/batches/detail" "GET")
        (answer on_get_batch (BatchService.get_batch batch_id))

  unfoldable pub recent_predictions :
      OrderBy {A = Prediction} (λ p. p.created_at) → ℕ → User → Handler (List Prediction)
  recent_predictions order limit actor = within 1 100 limit (
      guarded (may actor "/predictions/recent" "GET")
        (answer unhandled (PredictionService.get_recent_predictions order limit)))

  unfoldable pub predictions_for_batch :
      OrderBy {A = Prediction} (λ p. p.created_at) → String → User → Handler (List Prediction)
  predictions_for_batch order batch_id actor =
      guarded (may actor "/predictions/batch" "GET")
        (answer unhandled (PredictionService.get_predictions_for_batch order batch_id))

  unfoldable pub relabel_prediction : Env → String → PredictionRelabel → User → Handler Prediction
  relabel_prediction env prediction_id update actor =
      guarded (may actor "/predictions/relabel" "PATCH")
        (answer on_relabel (PredictionService.relabel env prediction_id update actor))

  unfoldable pub list_audit_logs :
      OrderBy {A = AuditLogEntry} (λ e. e.timestamp) → ℕ → User → Handler (List AuditLogEntry)
  list_audit_logs order limit actor = within 1 500 limit (
      guarded (may actor "/audit" "GET")
        (answer unhandled (PredictionService.list_recent order limit)))
