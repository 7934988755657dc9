-- ===== src/UserService/Requests.antt =====
-- Requests of users one after another. Each runs to its end before the next begins.
use project_6_document_class.Base.{String, List, [], ◌∷◌}
use project_6_document_class.Domain.{User, UserCreate, UserRoleUpdate}
use project_6_document_class.App.{Env, World}
use project_6_document_class.UserService.{create_user, change_role, delete_user}
use project_6_document_class.UserService.Admins.{
  HasAdmin, create_user-HasAdmin, change_role-HasAdmin, delete_user-HasAdmin,
}

pub data Request : Type 0 where
  create : UserCreate → Request
  set_role : String → UserRoleUpdate → Request
  delete : String → Request

-- An exception ends its own request.
pub handle : Env → User → Request → World → World
handle env actor (create form) w = (create_user env form actor w).1
handle env actor (set_role id update) w = (change_role env id update actor w).1
handle env actor (delete id) w = (delete_user env id actor w).1

pub serve : Env → List (User × Request) → World → World
serve env [] w = w
serve env ((actor, r) ∷ rest) w = serve env rest (handle env actor r w)

handle-HasAdmin :
    (env : Env) (actor : User) (r : Request) (w : World)
    → HasAdmin w.db
    → HasAdmin (handle env actor r w).db
unfolding handle
handle-HasAdmin env actor (create form) w h = create_user-HasAdmin env form actor w h
handle-HasAdmin env actor (set_role id update) w h = change_role-HasAdmin env id update actor w h
handle-HasAdmin env actor (delete id) w h = delete_user-HasAdmin env id actor w h

-- If the table of users has an admin, then after any sequence of calls of create_user,
-- change_role and delete_user, by any callers, one after another and with whatever errors, it
-- still has one.
pub serve-HasAdmin :
    (env : Env) (requests : List (User × Request)) (w : World)
    → HasAdmin w.db
    → HasAdmin (serve env requests w).db
unfolding serve
serve-HasAdmin env [] w h = h
serve-HasAdmin env ((actor, r) ∷ rest) w h =
    serve-HasAdmin env rest (handle env actor r w) (handle-HasAdmin env actor r w h)
