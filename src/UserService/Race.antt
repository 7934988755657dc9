-- ===== src/UserService/Race.antt =====
-- Two changes of a role at the same time. The engine of app/db/session.py sets no isolation level,
-- so PostgreSQL runs the transactions as READ COMMITTED: what one reads is what is committed then.
use project_6_document_class.Base.{
  ◌+◌, ◌≡◌, ◌≢◌, refl, ◌∙◌, String, Bool, true, false, List, [], ◌∷◌, ◌++◌, some, arith, select,
  update, count, exists, eq_iff,
}
use project_6_document_class.Base.RowLaws.{
  count-update, select-update_ne, exists-update, exists-append,
}
use project_6_document_class.Domain.{admin, User, UserRoleUpdate, role_value, str}
use project_6_document_class.Db.{Db, UserRow, to_user}
use project_6_document_class.App.{Env, World, Result, ok, err, begin}
use project_6_document_class.App.Fresh.{IsFresh}
use project_6_document_class.Repo.UserRepo
use project_6_document_class.Repo.AuditRepo
use project_6_document_class.UserService.{user_target, check_role, write_role}
use project_6_document_class.UserService.Admins.{admins}

-- The arguments of one call, with an admin as its caller.
pub record Demand : Type 0 where
  pub id : String
  pub form : UserRoleUpdate
  pub actor : User

-- Where the transaction of a call stands: its reads are done with `checked`, its commit with
-- `finished`.
pub data Phase : Type 0 where
  waiting : Phase
  checked : User → Phase
  finished : Phase

pub record Sessions : Type 0 where
  pub first : Phase
  pub second : Phase
  pub world : World

abbrev after_check : Result User → Phase
after_check (ok target) = checked target
after_check (err e) = finished

module _ (env : Env) where
  -- One step of a transaction, over what is committed. The writes and the commit are one step:
  -- the other transaction sees none of them before.
  unfoldable pub advance : Demand → Phase → World → Phase × World
  unfolding check_role write_role
  advance d waiting w = (after_check (check_role env d.id d.form w).0, w)
  advance d (checked target) w = (finished, (begin (write_role env d.id d.form d.actor target) w).1)
  advance d finished w = (finished, w)

  abbrev turn : Demand → Demand → Bool → Sessions → Sessions
  turn d e true s = let (p, w) = advance d s.first s.world in record s { first = p; world = w }
  turn d e false s = let (p, w) = advance e s.second s.world in record s { second = p; world = w }

  -- A schedule says whose turn it is.
  unfoldable pub run_schedule : Demand → Demand → List Bool → Sessions → Sessions
  run_schedule d e [] s = s
  run_schedule d e (b ∷ bs) s = run_schedule d e bs (turn d e b s)

  check_ok :
      (d : Demand) (w : World) (x : UserRow)
      → select (UserRepo.has_id d.id) w.db.users ≡ x ∷ []
      → admins w.db ≡ 2
      → advance d waiting w ≡ (checked (to_user x), w)
  unfolding advance
  check_ok d w x e two = ground arith

  abbrev written : Demand → World → User → Db
  written d w target = record w.db {
    users =
        update (UserRepo.has_id d.id) (UserRepo.with_role d.form.role (env.now w.draws)) w.db.users;
    audit_logs =
        w.db.audit_logs
        ++ record {
          id = env.uuid4 (w.draws + 1);
          actor_id = some d.actor.id;
          action = "role_change";
          target = user_target d.id;
          details =
              ("old_role", str (role_value target.role))
              ∷ ("new_role", str (role_value d.form.role))
              ∷ [];
          timestamp = env.now (w.draws + 1 + 1);
        }
          ∷ [];
  }

  abbrev written_world : Demand → World → User → World
  written_world d w target = record w { db = written d w target; draws = w.draws + 1 + 1 + 1 }

  write_ok :
      (d : Demand) (w : World) (t : User) (x : UserRow)
      → select (UserRepo.has_id d.id) w.db.users ≡ x ∷ []
      → exists (UserRepo.has_id d.actor.id) w.db.users ≡ true
      → exists (AuditRepo.has_id (env.uuid4 (w.draws + 1))) w.db.audit_logs ≡ false
      → advance d (checked t) w ≡ (finished, written_world d w t)
  unfolding advance
  write_ok d w t x e known fresh = ground (
    arith,
    e,
    exists-update (UserRepo.has_id d.actor.id) (UserRepo.has_id d.id)
        (UserRepo.with_role d.form.role (env.now w.draws)) w.db.users (λ u. refl),
  )

  admins-written :
      (d : Demand) (w : World) (t : User) (x : UserRow)
      → select (UserRepo.has_id d.id) w.db.users ≡ x ∷ []
      → x.role ≡ admin
      → d.form.role ≢ admin
      → admins (written d w t) + 1 ≡ admins w.db
  unfolding count
  admins-written d w t x e was lost = ground (
    arith,
    e,
    count-update (UserRepo.has_role admin) (UserRepo.has_id d.id)
        (UserRepo.with_role d.form.role (env.now w.draws)) w.db.users,
  )

  module _ (d e : Demand) (w : World) (x y : UserRow) (fresh : IsFresh env w)
      (found_x : select (UserRepo.has_id d.id) w.db.users ≡ x ∷ [])
      (found_y : select (UserRepo.has_id e.id) w.db.users ≡ y ∷ []) (ne : e.id ≢ d.id)
      (known_d : exists (UserRepo.has_id d.actor.id) w.db.users ≡ true)
      (known_e : exists (UserRepo.has_id e.actor.id) w.db.users ≡ true) where
    abbrev w₁ : World
    w₁ = written_world d w (to_user x)

    second_found : select (UserRepo.has_id e.id) w₁.db.users ≡ y ∷ []
    second_found =
        select-update_ne (UserRepo.has_id e.id) (UserRepo.has_id d.id)
          (UserRepo.with_role d.form.role (env.now w.draws)) w.db.users
          (λ u p. ground (arith, eq_iff u.id d.id, eq_iff u.id e.id))
          (λ u p. ground (arith, eq_iff u.id d.id, eq_iff u.id e.id))
        ∙ found_y

    second_fresh : exists (AuditRepo.has_id (env.uuid4 (w₁.draws + 1))) w₁.db.audit_logs ≡ false
    unfolding exists
    second_fresh =
        rw (exists-append, fresh.audit_logs (w₁.draws + 1) (omega arith))
          (ground (
            arith,
            eq_iff (env.uuid4 (w.draws + 1)) (env.uuid4 (w₁.draws + 1)),
            fresh.uuid4_inj (w.draws + 1) (w₁.draws + 1),
          ))

    second_known : exists (UserRepo.has_id e.actor.id) w₁.db.users ≡ true
    second_known =
        exists-update (UserRepo.has_id e.actor.id) (UserRepo.has_id d.id)
          (UserRepo.with_role d.form.role (env.now w.draws)) w.db.users (λ u. refl)
        ∙ known_e

    -- Suppose that there are exactly two admins, that each of two transactions of change_role
    -- takes the role from another one of them, that the callers are users and that the drawn ids
    -- are fresh. If both transactions read before either commits, then both are carried out and
    -- no admin is left: the check of the last admin does not hold between concurrent
    -- transactions.
    pub interleaved_demotions :
        admins w.db ≡ 2
        → x.role ≡ admin
        → y.role ≡ admin
        → d.form.role ≢ admin
        → e.form.role ≢ admin
        → let s =
            run_schedule d e
              (true ∷ false ∷ true ∷ false ∷ [])
              (record { first = waiting; second = waiting; world = w }) in
          (s.first ≡ finished) × (s.second ≡ finished) × (admins s.world.db ≡ 0)
    unfolding run_schedule
    interleaved_demotions two ax ay lost_x lost_y =
        rw
          (
            check_ok d w x found_x two,
            check_ok e w y found_y two,
            write_ok d w (to_user x) x found_x known_d
                (fresh.audit_logs (w.draws + 1) (omega arith)),
            write_ok e w₁ (to_user y) y second_found second_known second_fresh,
          )
          (
            refl,
            refl,
            omega (
              arith,
              two,
              admins-written d w (to_user x) x found_x ax lost_x,
              admins-written e w₁ (to_user y) y second_found ay lost_y,
            ),
          )
