-- ===== src/AwsStore/Checkpoints.antt =====
-- agent_resilience/aws_store.py: `get_workflow`, `save_workflow` and `list_workflows`.
use Prim.Native.String.{◌++◌ as concat}
use agent_resilience_runtime.Prelude.{
  ℕ, ◌+◌, String, Option, none, some, List, [], ◌∷◌, take, select, is_some, if◌then◌else◌,
}
use agent_resilience_runtime.Exec.{
  Exec, Result, ok, err, concurrent_update, other, pure, gets, lift, ◌>>=◌, ◌>>◌,
}
use agent_resilience_runtime.Models.{WorkflowState, WorkflowStatus}
use agent_resilience_runtime.Store.Lists.{bounded, has_status_of}
use agent_resilience_runtime.AwsStore.Cloud.{
  Services, Key, Item, workflow_item, set_checkpoint, asking, asking_unless,
}

-- `_workflow_pk`
abbrev pub workflow_pk : String → String
workflow_pk id = concat "WORKFLOW#" id

abbrev pub state_key : String → Key
state_key id = record { pk = workflow_pk id; sk = "STATE" }

-- `WorkflowState.model_validate_json(item["state_json"]) if item else None`
abbrev pub read_state : Option Item → Result (Option WorkflowState)
read_state none = ok none
read_state (some (workflow_item version s updated)) = ok (some s)
read_state (some _) = err (other "KeyError")

abbrev pub read_states : List Item → Result (List WorkflowState)
read_states [] = ok []
read_states (workflow_item version s updated ∷ items) = elim (read_states items) [
  | ok states ↦ ok (s ∷ states)
  | err e ↦ err e
]
read_states (_ ∷ items) = err (other "KeyError")

module _ {S : Type 0} (services : Services S) where
  open services use {now, get_item, update_item, query_workflows}

  unfoldable pub get_workflow : String → Exec S (Option WorkflowState)
  get_workflow id = do
    item ← asking "read checkpoint" (get_item (state_key id))
    lift (read_state item)

  unfoldable pub list_workflows : ℕ → Option WorkflowStatus → Exec S (List WorkflowState)
  list_workflows limit status = do
    items ←
        asking "list workflows"
          (query_workflows (if is_some status then 500 else bounded limit 500))
    states ← lift (read_states items)
    pure (take (bounded limit 500) (select (has_status_of status) states))

  -- The state as it is written: the next version, and the time of the write.
  abbrev pub next_checkpoint : WorkflowState → ℕ → S → WorkflowState
  next_checkpoint x expected s = record x { version = expected + 1; updated_at = now s }

  unfoldable pub save_workflow : WorkflowState → ℕ → Exec S WorkflowState
  save_workflow state expected = do
    x ← gets (next_checkpoint state expected)
    asking_unless "save checkpoint"
        (err (concurrent_update (concat "stale checkpoint for " x.task_id)))
        (update_item (state_key x.task_id) (set_checkpoint expected x))
    pure x
