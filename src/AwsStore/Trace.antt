-- ===== src/AwsStore/Trace.antt =====
-- The methods of agent_resilience/aws_store.py as steps: what each call does to the table, and any
-- sequence of calls, by any number of workers.
use agent_resilience_runtime.Prelude.{ℕ, String, Bool, Option, List, [], ◌∷◌, true, false}
use agent_resilience_runtime.Models.{WorkflowState, WorkflowStatus, Arguments, ToolName}
use agent_resilience_runtime.Models.Values.{Json}
use agent_resilience_runtime.Store.{EventBody}
use agent_resilience_runtime.AwsStore.Cloud.{Services}
use agent_resilience_runtime.AwsStore.Checkpoints.{get_workflow, save_workflow, list_workflows}
use agent_resilience_runtime.AwsStore.Queue.{
  AwsDelivery, enqueue, claim, extend_lease, acknowledge, retry_or_dead_letter, queue_counts,
  list_dead_letters,
}
use agent_resilience_runtime.AwsStore.Records.{
  record_event, list_events, create_approval, resolve_approval, approval_status, get_tool_result,
  save_tool_result, create_workflow,
}
use agent_resilience_runtime.AwsStore.Replay.{replay_dead_letter}

pub data Operation : Type 0 where
  create : WorkflowState → ℕ → Operation
  read : String → Operation
  list : ℕ → Option WorkflowStatus → Operation
  save : WorkflowState → ℕ → Operation
  send : String → ℕ → Operation
  claim_next : String → ℕ → Operation
  extend : AwsDelivery → ℕ → Operation
  acknowledge_receipt : String → Operation
  retry : AwsDelivery → String → ℕ → Operation
  event : String → EventBody → Operation
  audit : String → Operation
  read_result : String → Arguments → Operation
  store_result : String → String → ToolName → Arguments → Json → Operation
  new_approval : String → String → Operation
  decide : String → String → Bool → String → Option String → Operation
  read_approval : String → String → Operation
  count : Operation
  list_dead : ℕ → Operation
  replay : String → String → ℕ → String → String → Operation

abbrev pub is_acknowledge : Operation → Bool
is_acknowledge (acknowledge_receipt r) = true
is_acknowledge _ = false

module _ {S : Type 0} (services : Services S) (queue_url : String) (dlq_url : Option String)
    (hash : Arguments → String) where
  abbrev pub perform : Operation → S → S
  perform (create x limit) s = (create_workflow services queue_url x limit s).1
  perform (read id) s = (get_workflow services id s).1
  perform (list limit status) s = (list_workflows services limit status s).1
  perform (save x v) s = (save_workflow services x v s).1
  perform (send id limit) s = (enqueue services queue_url id limit s).1
  perform (claim_next worker lease) s = (claim services queue_url worker lease s).1
  perform (extend d lease) s = (extend_lease services queue_url d lease s).1
  perform (acknowledge_receipt r) s = (acknowledge services queue_url r s).1
  perform (retry d why base) s = (retry_or_dead_letter services queue_url dlq_url d why base s).1
  perform (event id body) s = (record_event services id body s).1
  perform (audit id) s = (list_events services id s).1
  perform (read_result key a) s = (get_tool_result services hash key a s).1
  perform (store_result key id t a v) s = (save_tool_result services hash key id t a v s).1
  perform (new_approval id action) s = (create_approval services id action s).1
  perform (decide id action approved actor why) s =
      (resolve_approval services id action approved actor why s).1
  perform (read_approval id action) s = (approval_status services id action s).1
  perform count s = (queue_counts services queue_url dlq_url s).1
  perform (list_dead limit) s = (list_dead_letters services queue_url dlq_url limit s).1
  perform (replay receipt id limit actor why) s =
      (replay_dead_letter services queue_url dlq_url receipt id limit actor why s).1

  abbrev pub perform_all : List Operation → S → S
  perform_all [] s = s
  perform_all (o ∷ os) s = perform_all os (perform o s)
