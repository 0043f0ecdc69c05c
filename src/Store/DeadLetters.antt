-- ===== src/Store/DeadLetters.antt =====
-- agent_resilience/store.py: `replay_dead_letter`.
use agent_resilience_runtime.Prelude.{
  ℕ, ◌+◌, String, Bool, Option, none, some, ◌==◌, string_eq, nat_eq, ◌&&◌, find,
}
use agent_resilience_runtime.Exec.{pure, gets, modify, transaction, ◌>>=◌, ◌>>◌}
use agent_resilience_runtime.Models.{WorkflowState, queued}
use agent_resilience_runtime.Store.Tables.{
  WorkflowRow, QueueRow, QueueStatus, queue_status_eq, EventBody, Run,
}
use agent_resilience_runtime.Store.Checkpoints.{workflow_row, update_workflow}
use agent_resilience_runtime.Store.Events.{insert_event}
use agent_resilience_runtime.Store.Queue.{update_queue}

-- `WHERE id=? AND task_id=? AND status='DEAD'`
abbrev pub is_dead_letter : ℕ → String → QueueRow → Bool
is_dead_letter i id r = r.id == i && r.task_id == id && r.status == QueueStatus.dead

abbrev pub is_dead_id : ℕ → QueueRow → Bool
is_dead_id i r = r.id == i && r.status == QueueStatus.dead

abbrev pub revive : ℕ → ℕ → QueueRow → QueueRow
revive max now r = record r {
  status = QueueStatus.pending;
  attempts = 0;
  max_attempts = max;
  available_at = now;
  lease_until = none;
  worker_id = none;
  last_error = none;
  updated_at = now;
}

-- The state that the replay writes over the row's.
abbrev pub replayed : WorkflowRow → ℕ → WorkflowState
replayed r now = record r.state {
  status = queued;
  last_error = none;
  version = r.version + 1;
  updated_at = now;
}

abbrev pub replay_workflow :
    Option WorkflowRow → ℕ → ℕ → String → String → Run (Option WorkflowState)
replay_workflow none i max actor reason = pure none
replay_workflow (some r) i max actor reason = do
  state ← gets (λ w. replayed r w.now)
  modify (update_workflow state r.version)
  modify (λ w. update_queue (is_dead_id i) (revive max w.now) w)
  modify (insert_event state.task_id (EventBody.dlq_replayed (some i) actor reason))
  pure (some state)

abbrev pub replay_row : Option QueueRow → ℕ → ℕ → String → String → Run (Option WorkflowState)
replay_row none i max actor reason = pure none
replay_row (some q) i max actor reason = do
  row ← gets (workflow_row q.task_id)
  replay_workflow row i max actor reason

unfoldable pub replay_dead_letter : ℕ → String → ℕ → String → String → Run (Option WorkflowState)
replay_dead_letter i id max actor reason =
    transaction
      (do row ← gets (λ w. find (is_dead_letter i id) w.queue); replay_row row i max actor reason)
