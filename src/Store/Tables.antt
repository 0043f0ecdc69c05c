-- ===== src/Store/Tables.antt =====
-- The tables that `SQLiteStore.initialize` of agent_resilience/store.py creates, and what stands
-- outside them: the clock, the calls that reached the tool backend, and the questions put to the
-- decision engine. Times are microseconds.
use agent_resilience_runtime.Prelude.{
  ℕ, String, Bool, true, Eq, nat_beq, Option, List, ◌≡◌, ◌↔◌, arith,
}
use agent_resilience_runtime.Exec.{Exec}
use agent_resilience_runtime.Models.Values.{Json}
use agent_resilience_runtime.Models.{
  WorkflowState, ToolName, Arguments, AgentDecision, PendingAction,
}

pub record WorkflowRow : Type 0 where
  pub task_id : String
  pub state : WorkflowState
  pub version : ℕ
  pub updated_at : ℕ

pub data QueueStatus : Type 0 where
  pending processing completed dead : QueueStatus

abbrev queue_status_index : QueueStatus → ℕ
queue_status_index pending = 0
queue_status_index processing = 1
queue_status_index completed = 2
queue_status_index dead = 3

abbrev queue_status_beq : QueueStatus → QueueStatus → Bool
queue_status_beq a b = nat_beq (queue_status_index a) (queue_status_index b)

pub queue_status_beq_iff : (a b : QueueStatus) → (queue_status_beq a b ≡ true) ↔ (a ≡ b)
queue_status_beq_iff a b = ground arith

instance abbrev pub queue_status_eq : Eq QueueStatus
queue_status_eq = record { beq = queue_status_beq; beq_iff = queue_status_beq_iff }

pub record QueueRow : Type 0 where
  pub id : ℕ
  pub task_id : String
  pub status : QueueStatus
  pub attempts : ℕ
  pub max_attempts : ℕ
  pub available_at : ℕ
  pub lease_until : Option ℕ
  pub worker_id : Option String
  pub last_error : Option String
  pub created_at : ℕ
  pub updated_at : ℕ

-- An event's type with its payload.
pub data EventBody : Type 0 where
  workflow_created : String → EventBody
  agent_decision_started : ℕ → EventBody
  model_retryable_failure : String → EventBody
  agent_decision : AgentDecision → EventBody
  workflow_completed : Option String → EventBody
  loop_detected : String → List ToolName → EventBody
  policy_denied : ToolName → String → EventBody
  approval_required : PendingAction → EventBody
  chaos_pause_started : ToolName → ℕ → EventBody
  approved_action_resumed : String → EventBody
  tool_retryable_failure : ToolName → String → EventBody
  tool_completed : ToolName → Bool → Json → EventBody
  workflow_failed : String → String → EventBody
  dead_lettered : String → EventBody
  queue_lease_extended : String → ℕ → EventBody
  approval_granted approval_rejected : String → Option String → EventBody
  dlq_replayed : Option ℕ → String → String → EventBody

-- The rows stand in the order of their ids.
pub record EventRow : Type 0 where
  pub task_id : String
  pub body : EventBody
  pub created_at : ℕ

pub record ToolResultRow : Type 0 where
  pub idempotency_key : String
  pub task_id : String
  pub tool_name : ToolName
  pub arguments_hash : String
  pub result : Json
  pub created_at : ℕ

pub data ApprovalStatus : Type 0 where
  pending approved rejected : ApprovalStatus

pub record ApprovalRow : Type 0 where
  pub task_id : String
  pub action_id : String
  pub status : ApprovalStatus
  pub actor : Option String
  pub reason : Option String
  pub created_at : ℕ
  pub resolved_at : Option ℕ

-- A call that reached the tool backend.
pub record BackendCall : Type 0 where
  pub task_id : String
  pub tool : ToolName
  pub arguments : Arguments
  pub attempt : ℕ

pub record World : Type 0 where
  pub workflows : List WorkflowRow
  pub queue : List QueueRow
  pub next_id : ℕ
  pub events : List EventRow
  pub tool_results : List ToolResultRow
  pub approvals : List ApprovalRow
  pub now : ℕ
  pub calls : List BackendCall
  pub asks : ℕ

abbrev pub Run : Type 0 → Type 0
Run A = Exec World A
