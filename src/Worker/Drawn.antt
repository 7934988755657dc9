-- ===== src/Worker/Drawn.antt =====
-- Ids that are drawn later stay new through what a job writes, and through a new batch.
use project_6_document_class.Base.{
  ℕ, ◌+◌, ◌≡◌, ◌≢◌, refl, ◌∙◌, String, false, List, [], ◌∷◌, ◌++◌, arith, exists, eq_iff, ◌==◌,
  Option,
}
use project_6_document_class.Base.RowLaws.{exists-append, exists-update}
use project_6_document_class.Domain.{BatchStatus, PredictionCreate, User}
use project_6_document_class.BatchService.Created.{created_world, new_row, new_entry}
use project_6_document_class.App.{Env, World}
use project_6_document_class.App.Fresh.{IsFresh}
use project_6_document_class.Repo.BatchRepo
use project_6_document_class.BatchService.Transitions.{moved_world, move_entry}
use project_6_document_class.PredictionService.Saves.{saved, saved_world}

-- Some more draws.
abbrev pub drawn : ℕ → World → World
drawn k w = record w { draws = w.draws + k }

module _ (env : Env) {w : World} (fresh : IsFresh env w) where
  other_draw : (m n : ℕ) → m ≢ n → (env.uuid4 m == env.uuid4 n) ≡ false
  other_draw m n ne = ground (arith, eq_iff (env.uuid4 m) (env.uuid4 n), fresh.uuid4_inj m n)

  -- A row under one draw does not take the id of another.
  pub exists-append_draw :
      {A : Type 0} (id : A → String) (rows : List A) (row : A) (m n : ℕ)
      → id row ≡ env.uuid4 m
      → m ≢ n
      → exists (λ x. id x == env.uuid4 n) rows ≡ false
      → exists (λ x. id x == env.uuid4 n) (rows ++ row ∷ []) ≡ false
  unfolding exists
  exists-append_draw id rows row m n e ne h =
      rw (exists-append (λ x. id x == env.uuid4 n) rows (row ∷ []), h, e) (rw (other_draw m n ne))

  pub moved-IsFresh :
      (id : String) (old new : BatchStatus) → IsFresh env (moved_world env w id old new)
  moved-IsFresh id old new = record {
    uuid4_inj = fresh.uuid4_inj;
    users = λ n h. fresh.users n (omega arith);
    batches = λ n h.
        exists-update (BatchRepo.has_id (env.uuid4 n)) (BatchRepo.has_id id)
          (BatchRepo.with_status new (env.now w.draws)) w.db.batches (λ b. refl)
        ∙ fresh.batches n (omega arith);
    predictions = λ n h. fresh.predictions n (omega arith);
    audit_logs = λ n h.
        exists-append_draw (λ e. e.id) w.db.audit_logs (move_entry env w.draws id old new)
          (w.draws + 1) n refl (λ e. omega arith) (fresh.audit_logs n (omega arith));
  }

  pub saved-IsFresh :
      (batch_id : String) (form : PredictionCreate) → IsFresh env (saved_world env batch_id form w)
  saved-IsFresh batch_id form = record {
    uuid4_inj = fresh.uuid4_inj;
    users = λ n h. fresh.users n (omega arith);
    batches = λ n h. fresh.batches n (omega arith);
    predictions = λ n h.
        exists-append_draw (λ p. p.id) w.db.predictions (saved env batch_id form w) (w.draws + 1) n
          refl (λ e. omega arith) (fresh.predictions n (omega arith));
    audit_logs = λ n h. fresh.audit_logs n (omega arith);
  }

  pub created-IsFresh : (n : ℕ) (actor : Option User) → IsFresh env (created_world env n actor w)
  created-IsFresh n actor = record {
    uuid4_inj = fresh.uuid4_inj;
    users = λ m h. fresh.users m (omega arith);
    batches = λ m h.
        exists-append_draw (λ b. b.id) w.db.batches (new_row env n actor w) w.draws m refl
          (λ e. omega arith) (fresh.batches m (omega arith));
    predictions = λ m h. fresh.predictions m (omega arith);
    audit_logs = λ m h.
        exists-append_draw (λ e. e.id) w.db.audit_logs (new_entry env n actor w) (w.draws + 1 + 1) m
          refl (λ e. omega arith) (fresh.audit_logs m (omega arith));
  }

  pub drawn-IsFresh : (k : ℕ) → IsFresh env (drawn k w)
  drawn-IsFresh k = record {
    uuid4_inj = fresh.uuid4_inj;
    users = λ n h. fresh.users n (omega arith);
    batches = λ n h. fresh.batches n (omega arith);
    predictions = λ n h. fresh.predictions n (omega arith);
    audit_logs = λ n h. fresh.audit_logs n (omega arith);
  }
