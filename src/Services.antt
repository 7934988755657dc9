-- ===== src/Services.antt =====
-- The calls of app/services that write, as one type: what the routers, the upload handler and the
-- workers send to the database.
pub mod Change
pub mod Constraints
pub mod Accounts
pub mod Schema
pub mod Frame
pub mod Coherence
pub mod CacheStore
use project_6_document_class.Base.{String, Option, []}
use project_6_document_class.Domain.{
  User, UserCreate, UserRoleUpdate, BatchCreate, PredictionCreate, PredictionRelabel,
}
use project_6_document_class.App.{Env, World}
use project_6_document_class.UserService.{create_user, change_role, delete_user}
use project_6_document_class.BatchService.{create_batch}
use project_6_document_class.BatchService.Machine.{Mark, mark}
use project_6_document_class.PredictionService.{save_prediction, relabel}

pub data Write : Type 0 where
  new_user : UserCreate → User → Write
  set_role : String → UserRoleUpdate → User → Write
  drop_user : String → User → Write
  new_batch : Option BatchCreate → Option User → Write
  mark_batch : Mark → String → Write
  save : String → PredictionCreate → Write
  set_label : String → PredictionRelabel → User → Write

-- The state after the call, whether it returns or raises.
abbrev pub call : Env → Write → World → World
call env (new_user form actor) w = (create_user env form actor w).1
call env (set_role id update actor) w = (change_role env id update actor w).1
call env (drop_user id actor) w = (delete_user env id actor w).1
call env (new_batch form actor) w = (create_batch env form actor w).1
call env (mark_batch m id) w = (mark env m id w).1
call env (save batch_id form) w = (save_prediction env batch_id form w).1
call env (set_label id update actor) w = (relabel env id update actor w).1

-- The call alone: `deleted` holds the cache keys that it deletes.
abbrev pub perform : Env → Write → World → World
perform env wr w = call env wr (record w { deleted = [] })
