-- ===== src/Tests/Aws.antt =====
-- Instances of the theorems on agent_resilience/aws_store.py and agent_resilience/contracts.py.
use agent_resilience_runtime.Prelude.{
  ◌+◌, ◌≤◌, true, false, Option, none, some, List, [], ◌∷◌, ◌≡◌, ◌≢◌, refl,
}
use agent_resilience_runtime.Exec.{Result, ok, err}
use agent_resilience_runtime.Models.{WorkflowState, ToolName}
use agent_resilience_runtime.Models.Values.{Json}
use agent_resilience_runtime.Store.{ApprovalStatus}
use agent_resilience_runtime.Contracts.Race.{Call, IsAscending, commits, commits-IsAscending, after}
use agent_resilience_runtime.Contracts.Aws.{IsOk, stored, aws-IsCheckpointStore}
use agent_resilience_runtime.AwsStore.{
  get_workflow, save_workflow, resolve_approval, create_approval, approval_status, get_tool_result,
  save_tool_result, next_checkpoint, AwsDelivery, claim, retry_or_dead_letter, replay_dead_letter,
  acknowledge, record_event,
}
use agent_resilience_runtime.AwsStore.Lock.{HasStates}
use agent_resilience_runtime.AwsStore.Trace.{Operation, perform_all}
use agent_resilience_runtime.AwsStore.Sound.{perform_all-HasStates}
use agent_resilience_runtime.AwsStore.Verdicts.{resolve_approval-final}
use agent_resilience_runtime.AwsStore.Results.{get_tool_result-after-save}
use agent_resilience_runtime.AwsStore.Delivery.{acknowledged, perform_all-keeps_messages}
use agent_resilience_runtime.Tests.Fixture.{sizes}
use agent_resilience_runtime.Tests.Stores.{job, other_job}
use agent_resilience_runtime.Tests.Cloud.{
  Local, local, table_of, depth_of, local-IsTable, local-IsQueueApart, local-IsQueue, start,
  start-HasStates,
}

-- Two workers save one version, and one of them the next.
commits-IsAscending_example : IsAscending 0 (
    commits
      (get_workflow local)
      (save_workflow local)
      "i1"
      (Call.read "i1" ∷ Call.save job 0 ∷ Call.save job 0 ∷ Call.save job 1 ∷ [])
      start)
commits-IsAscending_example =
    commits-IsAscending (get_workflow local) (save_workflow local)
      (IsOk local table_of local-IsTable) (stored local table_of local-IsTable)
      (aws-IsCheckpointStore local table_of local-IsTable) "i1"
      (Call.read "i1" ∷ Call.save job 0 ∷ Call.save job 0 ∷ Call.save job 1 ∷ []) start
      start-HasStates

abbrev saved : WorkflowState
saved = next_checkpoint local job 0 start

abbrev state_after : List Operation → Local → Local
state_after os s = perform_all local "main" (some "dlq") sizes.arguments_hash os s

abbrev delivery : AwsDelivery
delivery = record { receipt = "r"; task_id = "i1"; attempts = 5; max_attempts = 5 }

-- A task that is buried, replayed and acknowledged, with audit entries and a save between.
abbrev work : List Operation
work =
    Operation.claim_next "w" 30
    ∷ Operation.retry delivery "timeout" 1
    ∷ Operation.replay "r" "i1" 5 "oncall" "fixed"
    ∷ Operation.save job 0
    ∷ Operation.store_result "k" "i1" ToolName.restart_service [] Json.null
    ∷ Operation.decide "i1" "a" false "other" none
    ∷ Operation.acknowledge_receipt "r"
    ∷ []

abbrev value_of : {A : Type 0} → A → Result A → A
value_of default (ok a) = a
value_of default (err e) = default

-- What a worker loads after the save, and after a read and the save of another workflow.
abbrev loaded : Option WorkflowState
loaded =
    value_of none
      (get_workflow local "i1" (
        after (get_workflow local) (save_workflow local)
          (Call.read "i1" ∷ Call.save other_job 0 ∷ []) (save_workflow local job 0 start).1)).0

perform_all-HasStates_example : HasStates (table_of (state_after work start))
perform_all-HasStates_example =
    perform_all-HasStates local "main" (some "dlq") sizes.arguments_hash table_of local-IsTable
      local-IsQueueApart work start start-HasStates

-- The state with a pending approval, and after its verdict.
abbrev waiting : Local
waiting = (create_approval local "i1" "a" start).1

abbrev granted : Local
granted = (resolve_approval local "i1" "a" true "oncall" none waiting).1

abbrev status_at_end : Option ApprovalStatus
status_at_end = value_of none (approval_status local "i1" "a" (state_after work granted)).0

resolve_approval-final_example :
    (status_at_end ≡ some ApprovalStatus.approved)
    × (resolve_approval local "i1" "a" false "other" none (state_after work granted)
        ≢ (ok tt, granted))
unfolding create_approval resolve_approval approval_status save_tool_result claim
    retry_or_dead_letter replay_dead_letter save_workflow acknowledge get_workflow record_event
resolve_approval-final_example =
    resolve_approval-final local "main" (some "dlq") sizes.arguments_hash table_of local-IsTable
      local-IsQueueApart "i1" "a" true false "oncall" "other" none none work waiting granted
      (state_after work granted) granted status_at_end refl refl

abbrev measured : Json
measured = Json.num (record { negative = false; mantissa = 3; scale = 0 })

-- What a replay finds after the first call's result and a second one's were stored under the key.
abbrev stored_once : Local
stored_once =
    (save_tool_result local sizes.arguments_hash "k" "i1" ToolName.restart_service [] measured
      start).1

abbrev found : Option Json
found =
    value_of none
      (get_tool_result local sizes.arguments_hash "k" [] (state_after work stored_once)).0

get_tool_result-after-save_example : found ≡ some measured
unfolding get_tool_result save_tool_result claim retry_or_dead_letter replay_dead_letter
    save_workflow resolve_approval acknowledge get_workflow record_event
get_tool_result-after-save_example =
    get_tool_result-after-save local "main" (some "dlq") sizes.arguments_hash table_of local-IsTable
      local-IsQueueApart "k" "i1" ToolName.restart_service [] measured work start start stored_once
      (state_after work stored_once) found refl refl refl

perform_all-keeps_messages_example :
    depth_of "main" start + depth_of "dlq" start
    ≤ depth_of "main" (state_after work start)
      + depth_of "dlq" (state_after work start)
      + acknowledged work
perform_all-keeps_messages_example =
    perform_all-keeps_messages local "main" "dlq" sizes.arguments_hash depth_of local-IsQueue refl
      work start
