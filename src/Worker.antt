-- ===== src/Worker.antt =====
-- agent_resilience/worker.py: `DurableWorker.run_once`, one delivery from claim to acknowledgement,
-- and the heartbeat that renews its lease while it runs. The metrics are left out.
pub mod Trace
pub mod Settle
pub mod Next
pub mod DeadLetter
use agent_resilience_runtime.Prelude.{
  ℕ, String, Bool, true, false, not, Option, none, some, ◌==◌, if◌then◌else◌,
}
use agent_resilience_runtime.Exec.{
  Failure, Result, ok, err, is_retryable, message, pure, raise, attempt, ◌>>=◌, ◌>>◌,
}
use agent_resilience_runtime.Models.{
  WorkflowState, WorkflowStatus, queued, failed, dead_lettered, status_eq, terminal, QueueDelivery,
}
use agent_resilience_runtime.Store.{
  EventBody, Run, claim, acknowledge, enqueue, extend_lease, retry_or_dead_letter, get_workflow,
  save_workflow, record_event,
}
use agent_resilience_runtime.Runtime.{WorkflowRuntime, process}

-- The settings that the worker reads (config.py); durations are microseconds.
pub record Settings : Type 0 where
  pub queue_lease_seconds : ℕ
  pub max_queue_attempts : ℕ
  pub queue_retry_base_seconds : ℕ

-- One round of `_heartbeat`.
unfoldable pub heartbeat : Settings → String → QueueDelivery → Run (Unit {0})
heartbeat config worker d = do
  extend_lease d config.queue_lease_seconds
  record_event d.task_id (EventBody.queue_lease_extended worker config.queue_lease_seconds)

abbrev pub closed : WorkflowState → WorkflowStatus → String → WorkflowState
closed s status why = record s { status = status; last_error = some why }

-- `if state and not state.terminal()`: the workflow of a delivery that is given up.
abbrev pub dead_letter_state : Option WorkflowState → String → Run (Unit {0})
dead_letter_state none why = pure tt
dead_letter_state (some s) why = if terminal s then pure tt else do
  save_workflow (closed s dead_lettered why) s.version
  record_event s.task_id (EventBody.dead_lettered why)

abbrev pub fail_state : Option WorkflowState → String → Run (Unit {0})
fail_state none why = pure tt
fail_state (some s) why = if terminal s then pure tt else do
  save_workflow (closed s failed why) s.version
  record_event s.task_id (EventBody.workflow_failed "permanent" why)

-- `except RetryableWorkflowError`
unfoldable pub on_retryable : Settings → QueueDelivery → String → Run (Unit {0})
on_retryable config d why = do
  dead ← retry_or_dead_letter d why config.queue_retry_base_seconds
  if not dead then pure tt else do found ← get_workflow d.task_id; dead_letter_state found why

-- `except PermanentWorkflowError`
unfoldable pub on_permanent : QueueDelivery → String → Run (Unit {0})
on_permanent d why = do acknowledge d.id; found ← get_workflow d.task_id; fail_state found why

abbrev pub enqueue_next : Settings → WorkflowState → Run (Unit {0})
enqueue_next config s =
    if s.status == queued then (enqueue s.task_id config.max_queue_attempts >> pure tt) else pure tt

module _ (runtime : WorkflowRuntime) (config : Settings) where
  -- The body of the `try`.
  unfoldable pub deliver : QueueDelivery → Run (Unit {0})
  deliver d = do s ← process runtime d.task_id; acknowledge d.id; enqueue_next config s

  -- The `except` clauses; any other exception leaves `run_once`.
  abbrev pub handle : QueueDelivery → Result (Unit {0}) → Run (Unit {0})
  handle d (ok _) = pure tt
  handle d (err (Failure.permanent m)) = on_permanent d m
  handle d (err e) = if is_retryable e then on_retryable config d (message e) else raise e

  abbrev pub run_delivery : Option QueueDelivery → Run Bool
  run_delivery none = pure false
  run_delivery (some d) = do outcome ← attempt (deliver d); handle d outcome; pure true

  -- `run_once`
  unfoldable pub run_once : String → Run Bool
  run_once worker = do delivery ← claim worker config.queue_lease_seconds; run_delivery delivery
