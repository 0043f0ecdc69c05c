-- ===== src/AwsStore/Records.antt =====
-- agent_resilience/aws_store.py: `create_workflow`, the audit ledger, the idempotency records and the
-- approvals, all items of one table.
use Prim.Native.String.{◌++◌ as concat}
use agent_resilience_runtime.Prelude.{
  ℕ, String, Bool, true, false, Option, none, some, List, [], ◌∷◌, ◌==◌, string_eq, if◌then◌else◌,
}
use agent_resilience_runtime.Exec.{
  Exec, Result, ok, err, permanent, value_error, other, pure, gets, lift, ◌>>=◌, ◌>>◌,
}
use agent_resilience_runtime.Models.{WorkflowState, Arguments, ToolName}
use agent_resilience_runtime.Models.Values.{Json}
use agent_resilience_runtime.Store.{EventBody, ApprovalStatus}
use agent_resilience_runtime.Store.Approvals.{verdict}
use agent_resilience_runtime.AwsStore.Cloud.{
  Services, Key, Item, workflow_item, event_item, result_item, approval_item, set_verdict, asking,
  asking_unless,
}
use agent_resilience_runtime.AwsStore.Checkpoints.{workflow_pk, state_key}
use agent_resilience_runtime.AwsStore.Queue.{enqueue}

abbrev pub event_key : String → String → Key
event_key id event = record { pk = workflow_pk id; sk = concat "EVENT#" event }

abbrev pub result_key : String → Key
result_key key = record { pk = concat "IDEMPOTENCY#" key; sk = "RESULT" }

abbrev pub approval_key : String → String → Key
approval_key id action = record { pk = workflow_pk id; sk = concat "APPROVAL#" action }

-- `EventRecord`, with the time and the UUID of its id.
pub record AwsEvent : Type 0 where
  pub id : String
  pub task_id : String
  pub body : EventBody
  pub created_at : ℕ

abbrev pub read_events : String → List Item → Result (List AwsEvent)
read_events id [] = ok []
read_events id (event_item event task body created ∷ items) = elim (read_events id items) [
  | ok events ↦ ok (record { id = event; task_id = id; body = body; created_at = created } ∷ events)
  | err e ↦ err e
]
read_events id (_ ∷ items) = err (other "KeyError")

-- `str(item["status"]) if item else None`
abbrev pub read_status : Option Item → Result (Option ApprovalStatus)
read_status none = ok none
read_status (some (approval_item status actor reason created resolved)) = ok (some status)
read_status (some _) = err (other "KeyError")

abbrev pub or_empty : Option String → String
or_empty none = ""
or_empty (some s) = s

module _ {S : Type 0} (services : Services S) where
  open services use {now, new_event_id, put_item, get_item, update_item, query_events}

  unfoldable pub record_event : String → EventBody → Exec S (Unit {0})
  record_event id body = do
    created ← gets now
    event ← gets new_event_id
    asking "record audit event"
        (put_item false (event_key id event) (event_item event id body created))

  unfoldable pub list_events : String → Exec S (List AwsEvent)
  list_events id = do
    items ← asking "list audit events" (query_events (workflow_pk id))
    lift (read_events id items)

  unfoldable pub create_approval : String → String → Exec S (Unit {0})
  create_approval id action = do
    created ← gets now
    asking_unless "create approval" (ok tt) (
        put_item true (approval_key id action)
          (approval_item ApprovalStatus.pending none none created none))

  unfoldable pub resolve_approval :
      String → String → Bool → String → Option String → Exec S (Unit {0})
  resolve_approval id action approved actor reason = do
    resolved ← gets now
    asking_unless "resolve approval" (err (value_error "approval is not pending")) (
        update_item (approval_key id action)
          (set_verdict (verdict approved) actor (or_empty reason) resolved))

  unfoldable pub approval_status : String → String → Exec S (Option ApprovalStatus)
  approval_status id action = do
    item ← asking "read approval" (get_item (approval_key id action))
    lift (read_status item)

  module _ (arguments_hash : Arguments → String) where
    abbrev pub read_result : Arguments → Option Item → Result (Option Json)
    read_result a none = ok none
    read_result a (some (result_item task tool hash v created)) =
        if hash == arguments_hash a
        then ok (some v)
        else err (value_error "idempotency key reused with different arguments")
    read_result a (some _) = err (other "KeyError")

    unfoldable pub get_tool_result : String → Arguments → Exec S (Option Json)
    get_tool_result key a = do
      item ← asking "read idempotency result" (get_item (result_key key))
      lift (read_result a item)

    unfoldable pub save_tool_result :
        String → String → ToolName → Arguments → Json → Exec S (Unit {0})
    save_tool_result key id tool a v = do
      created ← gets now
      asking_unless "save idempotency result" (ok tt)
          (put_item true (result_key key) (result_item id tool (arguments_hash a) v created))

  -- The audit entry and the message are errors of their own, that the `except` does not catch.
  module _ (queue_url : String) where
    unfoldable pub create_workflow : WorkflowState → ℕ → Exec S WorkflowState
    unfolding record_event
    create_workflow state max = do
      asking_unless "create workflow"
          (err (permanent (concat "workflow already exists: " state.task_id)))
          (put_item true (state_key state.task_id)
            (workflow_item state.version state state.updated_at))
      record_event state.task_id (EventBody.workflow_created state.goal)
      enqueue services queue_url state.task_id max
      pure state
