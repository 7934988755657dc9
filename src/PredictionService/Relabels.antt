-- ===== src/PredictionService/Relabels.antt =====
-- Who may relabel what, and what a relabelling writes.
use project_6_document_class.Base.{
  ◌≡◌, ◌≢◌, ap, ◌==◌, true, false, String, [], ◌∷◌, ◌++◌, arith, select, update, eq_iff, rows_cases,
  inl, inr, some, ◌⊎◌, All,
}
use project_6_document_class.Base.RowLaws.{select-update_one, All-update}
use project_6_document_class.Domain.{
  admin, reviewer, User, Prediction, PredictionRelabel, must_be_valid_class, text_in, classes,
}
use project_6_document_class.Domain.Ieee.{at_least}
use project_6_document_class.App.{Env, World, Error, ok, err}
use project_6_document_class.App.Laws.{Result-cases}
use project_6_document_class.Cache.{predictions_recent_key, batch_key, predictions_batch_key}
use project_6_document_class.Repo.PredictionRepo
use project_6_document_class.PredictionService.{relabel, relabel_limit}

-- The rule of the service, apart from its code.
abbrev pub MayRelabel : User → Prediction → Type 0
MayRelabel actor pred =
    (actor.role ≡ admin)
    ⊎ ((actor.role ≡ reviewer) × (at_least relabel_limit pred.confidence ≡ false))

module _ (env : Env) (id : String) (u : PredictionRelabel) (actor : User) (w : World) where
  abbrev w' : World
  w' = (relabel env id u actor w).1

  -- If a relabelling returns, then the prediction is alone under its id, the actor is an admin,
  -- or a reviewer while the confidence is not at least 0.7; the row has the new label and no
  -- other row has changed; and three keys of the cache are deleted, for the batch of the row.
  pub relabel_ok :
      {v : Prediction}
      → (relabel env id u actor w).0 ≡ ok v
      → (x : Prediction) × (select (PredictionRepo.has_id id) w.db.predictions ≡ x ∷ [])
        × MayRelabel actor x
        × (v ≡ PredictionRepo.with_class u.relabeled_class x)
        × (w'.db.predictions
            ≡ update
                (PredictionRepo.has_id id)
                (PredictionRepo.with_class u.relabeled_class)
                w.db.predictions)
        × (w'.deleted
            ≡ ((w.deleted ++ predictions_recent_key ∷ []) ++ batch_key x.batch_id ∷ [])
              ++ predictions_batch_key x.batch_id ∷ [])
  unfolding relabel
  relabel_ok h = elim (rows_cases (select (PredictionRepo.has_id id) w.db.predictions)) [
    | inl e ↦ absurd (ground (arith, e))
    | inr (inl (x, e)) ↦
        (x, e, ground (arith, e), ground (arith, e), ground (arith, e), ground (arith, e))
    | inr (inr (x, y, zs, e)) ↦ absurd (ground (arith, e))
  ]

  pub relabel_error :
      {e : Error} → (relabel env id u actor w).0 ≡ err e → (w'.db ≡ w.db) × (w'.deleted ≡ w.deleted)
  unfolding relabel
  relabel_error h = ground arith

  -- If a relabelling returns, the rows of the predictions of every batch but the returned
  -- prediction's are what they were.
  pub relabel_others :
      {v : Prediction} (j : String)
      → (relabel env id u actor w).0 ≡ ok v
      → j ≢ v.batch_id
      → select (PredictionRepo.of_batch j) w'.db.predictions
        ≡ select (PredictionRepo.of_batch j) w.db.predictions
  relabel_others {v} j h ne =
      let t = relabel_ok h in
      let same : v.batch_id ≡ t.0.batch_id = ap (λ (p : Prediction). p.batch_id) t.3 in
      let differs : (t.0.batch_id == j) ≡ false = ground (arith, same, eq_iff t.0.batch_id j) in
      rw t.4 (
        select-update_one (PredictionRepo.of_batch j) (PredictionRepo.has_id id)
          (PredictionRepo.with_class u.relabeled_class) w.db.predictions t.0 t.1 differs differs)

-- Every label that a reviewer or an admin has set is one of the classes.
abbrev pub IsLabelled : Prediction → Type 0
IsLabelled p = (c : String) → p.relabeled_class ≡ some c → text_in c classes ≡ true

some_inj : {a b : String} → some a ≡ some b → a ≡ b
some_inj h = cc

valid_class :
    (v : String) (u : PredictionRelabel)
    → must_be_valid_class v ≡ some u
    → text_in u.relabeled_class classes ≡ true
unfolding must_be_valid_class
valid_class v u h = ground arith

-- If a new class passes the validation and every label in the table of predictions is a class,
-- then after a relabelling with it, whether it returns or raises, every label still is.
pub relabel-IsLabelled :
    (env : Env) (id v : String) (u : PredictionRelabel) (actor : User) (w : World)
    → must_be_valid_class v ≡ some u
    → All IsLabelled w.db.predictions
    → All IsLabelled (relabel env id u actor w).1.db.predictions
relabel-IsLabelled env id v u actor w valid all = elim (Result-cases (relabel env id u actor w).0) [
  | inr (_, e) ↦ rw ((relabel_error env id u actor w e).0) all
  | inl (_, e) ↦ rw ((relabel_ok env id u actor w e).4) (
      All-update IsLabelled (PredictionRepo.has_id id) (PredictionRepo.with_class u.relabeled_class)
        w.db.predictions (λ p _ _ c k. rw (← some_inj k) (valid_class v u valid)) all)
]
