-- ===== src/Casbin/Matrix.antt =====
-- Which role may call which endpoint.
use project_6_document_class.Base.{String, Bool, true, false, not, ◌&&◌, ◌≡◌, refl, [], exists}
use project_6_document_class.Domain.{Role, admin, reviewer, auditor, role_value}
use project_6_document_class.Casbin.{load_policy, enforce, policy_csv}

pub data Endpoint : Type 0 where
  list_users create_user change_role delete_user : Endpoint
  list_batches get_batch : Endpoint
  recent_predictions batch_predictions relabel : Endpoint
  audit_log upload : Endpoint

-- The object and the action that the endpoint's handler asks the enforcer about.
abbrev pub object : Endpoint → String
object list_users = "/users"
object create_user = "/users"
object change_role = "/users/role"
object delete_user = "/users/delete"
object list_batches = "/batches"
object get_batch = "/batches/detail"
object recent_predictions = "/predictions/recent"
object batch_predictions = "/predictions/batch"
object relabel = "/predictions/relabel"
object audit_log = "/audit"
object upload = "/upload"

abbrev pub action : Endpoint → String
action create_user = "POST"
action change_role = "PATCH"
action delete_user = "DELETE"
action relabel = "PATCH"
action upload = "POST"
action _ = "GET"

-- The table of the roles: an admin may do all; a reviewer all but what is of users and the audit
-- log; an auditor reads batches, predictions and the audit log. The comments of app/domain/user.py
-- and of the policy file name less: for the auditor no predictions, and in user.py no upload for
-- the reviewer.
abbrev is_users : Endpoint → Bool
is_users list_users = true
is_users create_user = true
is_users change_role = true
is_users delete_user = true
is_users _ = false

abbrev is_read : Endpoint → Bool
is_read create_user = false
is_read change_role = false
is_read delete_user = false
is_read relabel = false
is_read upload = false
is_read _ = true

abbrev is_audit : Endpoint → Bool
is_audit audit_log = true
is_audit _ = false

abbrev pub permits : Role → Endpoint → Bool
permits admin e = true
permits reviewer e = not (is_users e) && not (is_audit e)
permits auditor e = not (is_users e) && is_read e

-- The lines of the policy file, loaded into an empty store, grant an admin every endpoint, a
-- reviewer every one but those of users and the audit log, and an auditor exactly the reading of
-- batches, predictions and the audit log.
pub policy_table :
    (r : Role) (e : Endpoint)
    → enforce (load_policy policy_csv []) (role_value r) (object e) (action e) ≡ permits r e
unfolding load_policy exists
policy_table admin list_users = refl
policy_table admin create_user = refl
policy_table admin change_role = refl
policy_table admin _ = refl
policy_table reviewer list_users = refl
policy_table reviewer _ = refl
policy_table auditor list_users = refl
policy_table auditor _ = refl
