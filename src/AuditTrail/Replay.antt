-- ===== src/AuditTrail/Replay.antt =====
-- The log replays to the statuses in the table.
use mathlib.Core.List.{append-nil}
use text.Mathlib.TextLemmas.{append_cancel_left}
use project_6_document_class.Base.{
  ℕ, ◌≡◌, ◌≢◌, refl, ap, sym, ◌∙◌, subst, String, ◌==◌, eq_iff, eq_refl, List, [], ◌∷◌, ◌++◌,
  Option, none, some, select, arith, Bool-cases, inl, inr,
}
use project_6_document_class.Base.RowLaws.{select-append, select-exists_none}
use project_6_document_class.Domain.{
  User, Batch, BatchStatus, pending, processing, done, failed, AuditLogEntry, status_value,
}
use project_6_document_class.Db.{Db, BatchRow}
use project_6_document_class.App.{Env, World, Result}
use project_6_document_class.App.Laws.{Result-cases}
use project_6_document_class.Repo.BatchRepo
use project_6_document_class.BatchService.{batch_target}
use project_6_document_class.BatchService.Created
use project_6_document_class.BatchService.Created.{
  create_batch_error, create_batch_ok, new_row_self,
}
use project_6_document_class.BatchService.Transitions.{moved, move_entry}
use project_6_document_class.BatchService.Machine.{
  Mark, mark, goal, mark_step, mark_error, moved_self, moved_ne,
}
use project_6_document_class.AuditTrail.{
  entry_status, or_before, replay, parse_status, Call, create, move, call, calls,
}

batch_target_inj : (a b : String) → batch_target a ≡ batch_target b → a ≡ b
batch_target_inj a b h = append_cancel_left "batch:" a b h

replay-append :
    (id : String) (es : List AuditLogEntry) (e : AuditLogEntry) (before : Option BatchStatus)
    → replay id (es ++ e ∷ []) before ≡ or_before (entry_status id e) (replay id es before)
unfolding replay
replay-append id [] e before = refl
replay-append id (x ∷ es) e before = replay-append id es e (or_before (entry_status id x) before)

-- The log gives every batch the status that its row has.
abbrev pub IsLogged : Db → Type 0
IsLogged db =
    (id : String) (x : BatchRow)
    → select (BatchRepo.has_id id) db.batches ≡ x ∷ []
    → replay id db.audit_logs none ≡ some x.status

parse-status_value : (s : BatchStatus) → parse_status (status_value s) ≡ some s
parse-status_value pending = refl
parse-status_value processing = refl
parse-status_value done = refl
parse-status_value failed = refl

module _ (env : Env) (w : World) (id : String) (old new : BatchStatus) (d : ℕ) where
  move_entry_self : entry_status id (move_entry env d id old new) ≡ some new
  move_entry_self = rw (eq_refl (batch_target id)) (parse-status_value new)

  move_entry_ne : (j : String) → j ≢ id → entry_status j (move_entry env d id old new) ≡ none
  move_entry_ne j ne =
      ground (arith, eq_iff (batch_target id) (batch_target j), batch_target_inj id j)

moved-IsLogged :
    (env : Env) (w : World) (id : String) (x : BatchRow) (new : BatchStatus)
    → select (BatchRepo.has_id id) w.db.batches ≡ x ∷ []
    → IsLogged w.db
    → IsLogged (moved env w id x.status new)
moved-IsLogged env w id x new e h j y found = elim (Bool-cases (j == id)) [
  | inl same ↦
      let p : j ≡ id = (eq_iff j id).0 same in
      let q : y ≡ BatchRepo.with_status new (env.now w.draws) x =
        cc (found, moved_self env w id x.status new x e, p) in
      rw (replay-append, p, move_entry_self env w id x.status new w.draws)
        (ap (λ (b : BatchRow). some b.status) (sym q))
  | inr other ↦
      let ne : j ≢ id = λ p. cc ((eq_iff j id).1 p) in
      rw (replay-append, move_entry_ne env w id x.status new w.draws j ne)
        (h j y (sym (moved_ne env w id x.status new j ne) ∙ found))
]

mark-IsLogged :
    (env : Env) (m : Mark) (id : String) (w : World)
    → IsLogged w.db
    → IsLogged (mark env m id w).1.db
mark-IsLogged env m id w h = elim (Result-cases (mark env m id w).0) [
  | inr (_, e) ↦ subst IsLogged (sym (mark_error env m id w e)) h
  | inl (_, e) ↦
      let t = mark_step env m id w e in
      subst IsLogged (sym t.3) (moved-IsLogged env w id t.0 (goal m) t.1 h)
]

module _ (env : Env) (n : ℕ) (actor : Option User) (w : World) where
  abbrev made : Result Batch × World
  made = Created.made env n actor w

  abbrev new_row : BatchRow
  new_row = Created.new_row env n actor w

  abbrev new_entry : AuditLogEntry
  new_entry = Created.new_entry env n actor w

  new_row_ne : (j : String) → j ≢ new_row.id → select (BatchRepo.has_id j) (new_row ∷ []) ≡ []
  unfolding select
  new_row_ne j ne = ground (arith, eq_iff new_row.id j)

  new_entry_ne : (j : String) → j ≢ new_row.id → entry_status j new_entry ≡ none
  new_entry_ne j ne =
      ground
        (arith, eq_iff (batch_target new_row.id) (batch_target j), batch_target_inj new_row.id j)

  create_batch-IsLogged : IsLogged w.db → IsLogged made.1.db
  create_batch-IsLogged h = elim (Result-cases made.0) [
    | inr (_, e) ↦ subst IsLogged (sym (create_batch_error env n actor w e)) h
    | inl (_, e) ↦ λ j y found.
        let t = create_batch_ok env n actor w e in
        let rows : made.1.db.batches ≡ w.db.batches ++ new_row ∷ [] =
          ap (λ (v : World). v.db.batches) t.2 in
        let logs : made.1.db.audit_logs ≡ w.db.audit_logs ++ new_entry ∷ [] =
          ap (λ (v : World). v.db.audit_logs) t.2 in
        let old : select (BatchRepo.has_id j) w.db.batches
              ++ select (BatchRepo.has_id j) (new_row ∷ [])
            ≡ y ∷ [] =
          sym (select-append (BatchRepo.has_id j) w.db.batches (new_row ∷ []))
          ∙ (rw rows at found) in
        elim (Bool-cases (j == new_row.id)) [
          | inl same ↦
              let p : j ≡ new_row.id = (eq_iff j new_row.id).0 same in
              let one : new_row ∷ [] ≡ y ∷ [] =
                rw
                  (
                    p,
                    select-exists_none (BatchRepo.has_id new_row.id) w.db.batches t.0,
                    new_row_self env n actor w,
                  )
                  at old in
              let q : new_row ≡ y = cc one in
              rw (logs, replay-append, p, eq_refl (batch_target new_row.id))
                (ap (λ (b : BatchRow). some b.status) q)
          | inr other ↦
              let ne : j ≢ new_row.id = λ p. cc ((eq_iff j new_row.id).1 p) in
              rw (logs, replay-append, new_entry_ne j ne)
                (h j y (rw (new_row_ne j ne, append-nil) at old))
        ]
  ]

call-IsLogged : (env : Env) (c : Call) (w : World) → IsLogged w.db → IsLogged (call env c w).db
unfolding call
call-IsLogged env (create n actor) w h = create_batch-IsLogged env n actor w h
call-IsLogged env (move m id) w h = mark-IsLogged env m id w h

-- If the audit log alone gives every batch the status that its row has, then it still does after
-- any sequence of create_batch with a drawn id, mark_processing, mark_done and mark_failed,
-- whichever of these calls fail.
pub calls-IsLogged :
    (env : Env) (cs : List Call) (w : World) → IsLogged w.db → IsLogged (calls env cs w).db
unfolding calls
calls-IsLogged env [] w h = h
calls-IsLogged env (c ∷ cs) w h = calls-IsLogged env cs (call env c w) (call-IsLogged env c w h)
