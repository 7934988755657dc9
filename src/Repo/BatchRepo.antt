-- ===== src/Repo/BatchRepo.antt =====
-- app/repositories/batch_repo.py.
use mathlib.Core.Option
use project_6_document_class.Base.{
  ℕ, ◌+◌, String, Bool, ◌==◌, List, [], ◌∷◌, ◌++◌, Option, none, some, map, take, drop, select,
  update, exists,
}
use project_6_document_class.Domain.{BatchStatus, pending, Batch, BatchCreate, status_eq}
use project_6_document_class.Db.{BatchRow, to_batch}
use project_6_document_class.App.{
  Env, App, integrity_error, pure, gets, modify, draw, raise_if, ◌>>=◌, ◌>>◌, scalar_one_or_none,
}
use project_6_document_class.Repo.OrderBy.{OrderBy}

-- `BatchORM.id == batch_id`.
abbrev pub has_id : String → BatchRow → Bool
has_id batch_id b = b.id == batch_id

abbrev pub has_status : BatchStatus → BatchRow → Bool
has_status status b = status_eq b.status status

abbrev pub with_status : BatchStatus → ℕ → BatchRow → BatchRow
with_status status now b = record b { status = status; updated_at = now }

-- The INSERT of a row, under the primary key of the table.
unfoldable pub add_batch : BatchRow → App Unit
add_batch row = do
  batches ← gets (λ w. w.db.batches)
  raise_if (exists (has_id row.id) batches) integrity_error
  modify (λ db. record db { batches = db.batches ++ row ∷ [] })

-- The factory of the field `id` of `BatchCreate`.
abbrev pub given_id : Env → BatchCreate → App String
given_id env c = elim c.id [ none ↦ draw env.uuid4 | some id ↦ pure id ]

module _ (env : Env) where
  unfoldable pub create : BatchCreate → App Batch
  unfolding add_batch
  create batch_create = do
    id ← given_id env batch_create
    now ← draw env.now
    let batch_orm : BatchRow = record {
      id = id;
      status = pending;
      file_count = batch_create.file_count;
      created_at = now;
      updated_at = now;
    }
    add_batch batch_orm
    pure (to_batch batch_orm)

  -- The UPDATE sets `updated_at` too, by the column's `onupdate`.
  unfoldable pub update_status : String → BatchStatus → App (Option Batch)
  update_status batch_id new_status = do
    now ← draw env.now
    let set_status = with_status new_status now
    batches ← gets (λ w. w.db.batches)
    modify (λ db. record db { batches = update (has_id batch_id) set_status db.batches })
    batch_orm ← scalar_one_or_none (map set_status (select (has_id batch_id) batches))
    pure (Option.map to_batch batch_orm)

unfoldable pub get_by_id : String → App (Option Batch)
get_by_id batch_id = do
  batches ← gets (λ w. w.db.batches)
  batch_orm ← scalar_one_or_none (select (has_id batch_id) batches)
  pure (Option.map to_batch batch_orm)

module _ (env : Env) where
  -- What `increment_file_count` does once the batch is found.
  unfoldable pub add_to_file_count : String → ℕ → Option Batch → App (Option Batch)
  add_to_file_count batch_id n none = pure none
  add_to_file_count batch_id n (some _) = do
    now ← draw env.now
    let add : BatchRow → BatchRow =
        λ b. record b { file_count = b.file_count + n; updated_at = now }
    batches ← gets (λ w. w.db.batches)
    modify (λ db. record db { batches = update (has_id batch_id) add db.batches })
    batch_orm ← scalar_one_or_none (map add (select (has_id batch_id) batches))
    pure (Option.map to_batch batch_orm)

  unfoldable pub increment_file_count : String → ℕ → App (Option Batch)
  unfolding get_by_id add_to_file_count
  increment_file_count batch_id n = do
    batch ← get_by_id batch_id
    add_to_file_count batch_id n batch

module _ (order : OrderBy {A = BatchRow} (λ b. b.created_at)) where
  unfoldable pub list : ℕ → ℕ → App (List Batch)
  list limit offset = gets (λ w. map to_batch (take limit (drop offset (order.desc w.db.batches))))

  unfoldable pub list_by_status : BatchStatus → ℕ → ℕ → App (List Batch)
  list_by_status status limit offset = gets (λ w.
      map to_batch
        (take limit (drop offset (order.desc (select (has_status status) w.db.batches)))))
