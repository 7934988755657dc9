-- ===== src/BatchService/Machine.antt =====
-- The life cycle as a step relation, which the calls of the service follow.
use project_6_document_class.Base.{
  ◌+◌, ◌≡◌, ◌≢◌, refl, ◌∙◌, ap, true, false, String, List, [], ◌∷◌, arith, select, exists, eq_iff,
  inl, inr, ◌⊎◌, Bool-cases, map, ◌==◌,
}
use project_6_document_class.Base.RowLaws.{select-update_self, select-update_ne}
use project_6_document_class.Domain.{
  BatchStatus, pending, processing, done, failed, Batch, status_in,
}
use project_6_document_class.Db.{BatchRow, to_batch}
use project_6_document_class.App.{Env, World, App, Error, Result, ok, err}
use project_6_document_class.App.Laws.{Result-cases}
use project_6_document_class.Repo.BatchRepo
use project_6_document_class.Repo.AuditRepo
use project_6_document_class.BatchService.{transition, mark_processing, mark_done, mark_failed}
use project_6_document_class.BatchService.Transitions.{
  transition_ok, transition_error, transition_enabled, moved,
}

-- The comment of `BatchService`, as a relation.
pub data Step : BatchStatus → BatchStatus → Type 0 where
  start : Step pending processing
  give_up : Step pending failed
  finish : Step processing done
  break_off : Step processing failed

pub data Reach (s : BatchStatus) : BatchStatus → Type 0 where
  here : Reach s s
  next : {t u : BatchStatus} → Reach s t → Step t u → Reach s u

pub data Mark : Type 0 where
  to_processing to_done to_failed : Mark

-- The call of the service that a mark stands for.
unfoldable pub mark : Env → Mark → String → App Batch
unfolding mark_processing mark_done mark_failed
mark env to_processing = mark_processing env
mark env to_done = mark_done env
mark env to_failed = mark_failed env

abbrev pub goal : Mark → BatchStatus
goal to_processing = processing
goal to_done = done
goal to_failed = failed

abbrev pub sources : Mark → List BatchStatus
sources to_processing = pending ∷ []
sources to_done = processing ∷ []
sources to_failed = pending ∷ processing ∷ []

pub mark-eq-transition :
    (env : Env) (m : Mark) → mark env m ≡ (λ id. transition env id (goal m) (sources m))
unfolding mark_processing mark_done mark_failed mark
mark-eq-transition env to_processing = refl
mark-eq-transition env to_done = refl
mark-eq-transition env to_failed = refl

-- What the sets `allowed` of the three calls say is the relation.
sources_iff_Step : (m : Mark) (s : BatchStatus) → status_in s (sources m) ≡ true → Step s (goal m)
sources_iff_Step to_processing pending h = start
sources_iff_Step to_processing processing h = cc
sources_iff_Step to_processing done h = cc
sources_iff_Step to_processing failed h = cc
sources_iff_Step to_done pending h = cc
sources_iff_Step to_done processing h = finish
sources_iff_Step to_done done h = cc
sources_iff_Step to_done failed h = cc
sources_iff_Step to_failed pending h = give_up
sources_iff_Step to_failed processing h = break_off
sources_iff_Step to_failed done h = cc
sources_iff_Step to_failed failed h = cc

Step-sources :
    {s t : BatchStatus} (m : Mark) → Step s t → t ≡ goal m → status_in s (sources m) ≡ true
Step-sources to_processing start h = refl
Step-sources to_processing give_up h = cc
Step-sources to_processing finish h = cc
Step-sources to_processing break_off h = cc
Step-sources to_done start h = cc
Step-sources to_done give_up h = cc
Step-sources to_done finish h = refl
Step-sources to_done break_off h = cc
Step-sources to_failed start h = cc
Step-sources to_failed give_up h = refl
Step-sources to_failed finish h = cc
Step-sources to_failed break_off h = refl

-- The row that a lookup by `j` finds after the move of the batch `id`.
module _ (env : Env) (w : World) (id : String) (old new : BatchStatus) where
  pub moved_self :
      (x : BatchRow)
      → select (BatchRepo.has_id id) w.db.batches ≡ x ∷ []
      → select (BatchRepo.has_id id) (moved env w id old new).batches
        ≡ BatchRepo.with_status new (env.now w.draws) x ∷ []
  moved_self x e =
      select-update_self (BatchRepo.has_id id) (BatchRepo.with_status new (env.now w.draws))
        w.db.batches (λ b h. h)
      ∙ ap (map (BatchRepo.with_status new (env.now w.draws))) e

  pub moved_ne :
      (j : String)
      → j ≢ id
      → select (BatchRepo.has_id j) (moved env w id old new).batches
        ≡ select (BatchRepo.has_id j) w.db.batches
  moved_ne j ne =
      select-update_ne (BatchRepo.has_id j) (BatchRepo.has_id id)
        (BatchRepo.with_status new (env.now w.draws)) w.db.batches
        (λ b h. ground (arith, eq_iff b.id j, eq_iff b.id id))
        (λ b h. ground (arith, eq_iff b.id j, eq_iff b.id id))

module _ (env : Env) (m : Mark) (id : String) (w : World) where
  by_transition : mark env m id w ≡ transition env id (goal m) (sources m) w
  by_transition = ap (λ (f : String → App Batch). f id w) (mark-eq-transition env m)

  -- A mark that returns has made a step of the relation: the batch is alone under its id, the
  -- step relation leads from its status to the mark's goal, the tables differ by the new status
  -- of that row and one log entry for the change, and the returned batch has the new status.
  pub mark_step :
      {v : Batch}
      → (mark env m id w).0 ≡ ok v
      → (x : BatchRow) × (select (BatchRepo.has_id id) w.db.batches ≡ x ∷ [])
        × Step x.status (goal m)
        × ((mark env m id w).1.db ≡ moved env w id x.status (goal m))
        × (v.status ≡ goal m)
  mark_step h =
      let t = transition_ok env id (goal m) (sources m) w (rw by_transition at h) in
      (
        t.0,
        t.1,
        sources_iff_Step m t.0.status t.2,
        rw by_transition t.3,
        ap (λ (b : Batch). b.status) t.5,
      )

  -- If a batch is alone under its id, the step relation has the step from its status to the
  -- mark's goal, and no log entry has the id that is drawn for the new one, then the mark returns
  -- the batch with the new status.
  pub mark_enabled :
      (x : BatchRow)
      → select (BatchRepo.has_id id) w.db.batches ≡ x ∷ []
      → Step x.status (goal m)
      → exists (AuditRepo.has_id (env.uuid4 (w.draws + 1))) w.db.audit_logs ≡ false
      → (mark env m id w).0 ≡ ok (to_batch (BatchRepo.with_status (goal m) (env.now w.draws) x))
  mark_enabled x e s fresh = rw by_transition (
      ap (λ (p : Result Batch × World). p.0)
        (transition_enabled env id (goal m) (sources m) w x e (Step-sources m s refl) fresh))

  pub mark_error : {e : Error} → (mark env m id w).0 ≡ err e → (mark env m id w).1.db ≡ w.db
  mark_error h =
      rw by_transition (transition_error env id (goal m) (sources m) w (rw by_transition at h)).0

  -- What a mark does to the status of any batch.
  mark-Reach :
      (j : String) (x : BatchRow)
      → select (BatchRepo.has_id j) w.db.batches ≡ x ∷ []
      → (y : BatchRow) × (select (BatchRepo.has_id j) (mark env m id w).1.db.batches ≡ y ∷ [])
        × Reach x.status y.status
  mark-Reach j x e = elim (Result-cases (mark env m id w).0) [
    | inr (_, failed_call) ↦ (x, rw (mark_error failed_call) e, here)
    | inl (v, h) ↦
        let t = mark_step h in
        elim (Bool-cases (j == id)) [
          | inr ne ↦ (
            x,
            rw t.3 (moved_ne env w id t.0.status (goal m) j (λ p. cc ((eq_iff j id).1 p)) ∙ e),
            here,
          )
          | inl same ↦
              let p : j ≡ id = (eq_iff j id).0 same in
              let found : x ≡ t.0 = cc (e, t.1, p) in
              (
                BatchRepo.with_status (goal m) (env.now w.draws) t.0,
                rw (t.3, p) (moved_self env w id t.0.status (goal m) t.0 t.1),
                next here (rw found t.2),
              )
        ]
  ]

pub run_marks : Env → List (Mark × String) → World → World
run_marks env [] w = w
run_marks env ((m, id) ∷ rest) w = run_marks env rest (mark env m id w).1

Reach-trans : {s t u : BatchStatus} → Reach s t → Reach t u → Reach s u
Reach-trans r here = r
Reach-trans r (next q st) = next (Reach-trans r q) st

-- Whatever marks are called, on whatever batches and with whatever errors: a batch that is alone
-- under its id stays so, and its status has moved along the step relation of the life cycle.
pub run_marks-Reach :
    (env : Env) (marks : List (Mark × String)) (w : World) (j : String) (x : BatchRow)
    → select (BatchRepo.has_id j) w.db.batches ≡ x ∷ []
    → (y : BatchRow) × (select (BatchRepo.has_id j) (run_marks env marks w).db.batches ≡ y ∷ [])
      × Reach x.status y.status
unfolding run_marks
run_marks-Reach env [] w j x e = (x, e, here)
run_marks-Reach env ((m, id) ∷ rest) w j x e =
    let one = mark-Reach env m id w j x e in
    let all = run_marks-Reach env rest (mark env m id w).1 j one.0 one.1 in
    (all.0, all.1, Reach-trans one.2 all.2)

-- No step leaves `done` or `failed`.
Reach-terminal : {s t : BatchStatus} → (s ≡ done) ⊎ (s ≡ failed) → Reach s t → t ≡ s
Reach-terminal h here = refl
Reach-terminal h (next r st) = leave st (Reach-terminal h r) h
  where
    leave : {s t u : BatchStatus} → Step t u → t ≡ s → (s ≡ done) ⊎ (s ≡ failed) → u ≡ s
    leave start e k = ground arith
    leave give_up e k = ground arith
    leave finish e k = ground arith
    leave break_off e k = ground arith

-- A batch that is alone under its id and is done or failed keeps its status, whatever marks are
-- called on whatever batches.
pub run_marks_terminal :
    (env : Env) (marks : List (Mark × String)) (w : World) (j : String) (x : BatchRow)
    → select (BatchRepo.has_id j) w.db.batches ≡ x ∷ []
    → (x.status ≡ done) ⊎ (x.status ≡ failed)
    → (y : BatchRow) × (select (BatchRepo.has_id j) (run_marks env marks w).db.batches ≡ y ∷ [])
      × (y.status ≡ x.status)
run_marks_terminal env marks w j x e h =
    let r = run_marks-Reach env marks w j x e in (r.0, r.1, Reach-terminal h r.2)
