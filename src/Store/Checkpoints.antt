-- ===== src/Store/Checkpoints.antt =====
-- agent_resilience/store.py: `create_workflow`, `get_workflow` and `save_workflow`. The state's JSON
-- text is read back as the state that was written.
pub mod Lock
use Prim.Native.String.{◌++◌ as concat}
use mathlib.Core.Option
use agent_resilience_runtime.Prelude.{
  ℕ, ◌+◌, String, ◌++◌, Bool, Option, none, [], ◌∷◌, ◌==◌, string_eq, nat_eq, ◌&&◌, not,
  if◌then◌else◌, find, update_where, count_where, is_some,
}
use agent_resilience_runtime.Exec.{
  integrity_error, concurrent_update, pure, raise, gets, modify, transaction, ◌>>=◌, ◌>>◌,
}
use agent_resilience_runtime.Models.{WorkflowState}
use agent_resilience_runtime.Store.Tables.{
  World, WorkflowRow, QueueRow, QueueStatus, EventBody, Run,
}
use agent_resilience_runtime.Store.Events.{insert_event}

abbrev pub has_task : String → WorkflowRow → Bool
has_task id r = r.task_id == id

-- The row of the primary key `task_id`.
abbrev pub workflow_row : String → World → Option WorkflowRow
workflow_row id w = find (has_task id) w.workflows

-- A new row of the queue with status `PENDING`; `AUTOINCREMENT` gives its id.
abbrev pub new_delivery : String → ℕ → World → QueueRow
new_delivery id max w = record {
  id = w.next_id;
  task_id = id;
  status = QueueStatus.pending;
  attempts = 0;
  max_attempts = max;
  available_at = w.now;
  lease_until = none;
  worker_id = none;
  last_error = none;
  created_at = w.now;
  updated_at = w.now;
}

abbrev pub insert_delivery : String → ℕ → World → World
insert_delivery id max w = record w {
  queue = w.queue ++ new_delivery id max w ∷ [];
  next_id = w.next_id + 1;
}

abbrev pub insert_workflow : WorkflowState → World → World
insert_workflow s w = record w {
  workflows =
      w.workflows
      ++ record { task_id = s.task_id; state = s; version = s.version; updated_at = w.now } ∷ [];
}

-- A second row of one `task_id` breaks the primary key.
unfoldable pub create_workflow : WorkflowState → ℕ → Run WorkflowState
create_workflow s max = transaction (do
  known ← gets (λ w. is_some (workflow_row s.task_id w))
  if known then raise integrity_error else do
    modify (insert_workflow s)
    modify (insert_delivery s.task_id max)
    modify (insert_event s.task_id (EventBody.workflow_created s.goal))
    pure s)

unfoldable pub get_workflow : String → Run (Option WorkflowState)
get_workflow id = gets (λ w. Option.map (λ r. r.state) (workflow_row id w))

-- `WHERE task_id=? AND version=?`
abbrev pub is_checkpoint : String → ℕ → WorkflowRow → Bool
is_checkpoint id version r = r.task_id == id && r.version == version

abbrev pub write_state : WorkflowState → WorkflowRow → WorkflowRow
write_state s r = record r { state = s; version = s.version; updated_at = s.updated_at }

abbrev pub update_workflow : WorkflowState → ℕ → World → World
update_workflow s expected w = record w {
  workflows = update_where (is_checkpoint s.task_id expected) (write_state s) w.workflows;
}

-- The state as it is written: the next version, and the time of the write.
abbrev pub next_checkpoint : WorkflowState → ℕ → World → WorkflowState
next_checkpoint s expected w = record s { version = expected + 1; updated_at = w.now }

unfoldable pub save_workflow : WorkflowState → ℕ → Run WorkflowState
save_workflow state expected = do
  s ← gets (next_checkpoint state expected)
  transaction (do
    rowcount ← gets (λ w. count_where (is_checkpoint s.task_id expected) w.workflows)
    modify (update_workflow s expected)
    if not (rowcount == 1)
        then raise (concurrent_update (concat "stale checkpoint for " s.task_id))
        else pure s)
