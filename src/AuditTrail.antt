-- ===== src/AuditTrail.antt =====
-- The audit log as the history of the batches: what the entries of `BatchService` say, read back.
pub mod Replay
use project_6_document_class.Base.{
  ℕ, String, ◌==◌, List, [], ◌∷◌, Option, none, some, if◌then◌else◌,
}
use project_6_document_class.Domain.{
  User, BatchStatus, pending, processing, done, failed, AuditLogEntry, Json, str, num, status_value,
}
use project_6_document_class.App.{Env, World}
use project_6_document_class.BatchService.{create_batch, batch_target}
use project_6_document_class.BatchService.Machine.{Mark, mark}

abbrev pub parse_status : String → Option BatchStatus
parse_status s =
    if s == status_value pending
    then some pending
    else if s == status_value processing
    then some processing
    else if s == status_value done
    then some done
    else if s == status_value failed
    then some failed
    else none

-- The status under "to", in the details of a change.
abbrev pub moved_to : List (String × Json) → Option BatchStatus
moved_to (_ ∷ (_, str s) ∷ []) = parse_status s
moved_to _ = none

-- The status that an entry gives to the batch `id`, if it is about that batch.
abbrev pub entry_status : String → AuditLogEntry → Option BatchStatus
entry_status id e =
    if e.target == batch_target id
    then (if e.action == "batch_created"
        then some pending
        else if e.action == "batch_state_change"
        then moved_to e.details
        else none)
    else none

abbrev pub or_before : Option BatchStatus → Option BatchStatus → Option BatchStatus
or_before none before = before
or_before (some s) before = some s

-- The status of the batch `id` by the log alone.
unfoldable pub replay : String → List AuditLogEntry → Option BatchStatus → Option BatchStatus
replay id [] before = before
replay id (e ∷ es) before = replay id es (or_before (entry_status id e) before)

-- The calls that write batches: both ways in create one with a fresh id, and the workers mark it.
pub data Call : Type 0 where
  create : ℕ → Option User → Call
  move : Mark → String → Call

pub call : Env → Call → World → World
call env (create n actor) w =
    (create_batch env (some (record { id = none; file_count = n })) actor w).1
call env (move m id) w = (mark env m id w).1

-- Calls one after another; an error ends its own call.
pub calls : Env → List Call → World → World
calls env [] w = w
calls env (c ∷ cs) w = calls env cs (call env c w)
