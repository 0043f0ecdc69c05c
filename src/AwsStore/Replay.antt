-- ===== src/AwsStore/Replay.antt =====
-- agent_resilience/aws_store.py: `replay_dead_letter`. The state is saved first, then the task is
-- sent, and only then is the dead letter deleted.
use agent_resilience_runtime.Prelude.{ℕ, String, Option, none, some}
use agent_resilience_runtime.Exec.{Exec, pure, ◌>>=◌, ◌>>◌}
use agent_resilience_runtime.Models.{WorkflowState, queued}
use agent_resilience_runtime.Store.{EventBody}
use agent_resilience_runtime.AwsStore.Cloud.{Services, asking}
use agent_resilience_runtime.AwsStore.Checkpoints.{get_workflow, save_workflow}
use agent_resilience_runtime.AwsStore.Queue.{task_body}
use agent_resilience_runtime.AwsStore.Records.{record_event}

abbrev pub requeued : WorkflowState → WorkflowState
requeued s = record s { status = queued; last_error = none }

module _ {S : Type 0} (services : Services S) (queue_url : String) where
  open services use {send_message, delete_message}

  abbrev pub resend : String → String → String → ℕ → Exec S (Unit {0})
  resend url receipt id limit = do
    asking "replay dead letter" (send_message queue_url (task_body id limit))
    asking "replay dead letter" (delete_message url receipt)

  abbrev pub replay_state :
      String
      → String
      → String
      → ℕ
      → String
      → String
      → Option WorkflowState
      → Exec S (Option WorkflowState)
  replay_state url receipt id limit actor reason none = pure none
  replay_state url receipt id limit actor reason (some s) = do
    saved ← save_workflow services (requeued s) s.version
    resend url receipt id limit
    record_event services id (EventBody.dlq_replayed none actor reason)
    pure (some saved)

  abbrev pub replay_from :
      String → String → ℕ → String → String → Option String → Exec S (Option WorkflowState)
  replay_from receipt id limit actor reason none = pure none
  replay_from receipt id limit actor reason (some url) = do
    state ← get_workflow services id
    replay_state url receipt id limit actor reason state

  unfoldable pub replay_dead_letter :
      Option String → String → String → ℕ → String → String → Exec S (Option WorkflowState)
  replay_dead_letter dlq_url receipt id limit actor reason =
      replay_from receipt id limit actor reason dlq_url
