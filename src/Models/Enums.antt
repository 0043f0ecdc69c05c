-- ===== src/Models/Enums.antt =====
-- The enumerations of agent_resilience/models.py, and their equality.
use agent_resilience_runtime.Prelude.{ℕ, String, Bool, true, Eq, nat_beq, ◌≡◌, ◌↔◌, arith}

pub data WorkflowStatus : Type 0 where
  queued running waiting_for_approval completed failed dead_lettered : WorkflowStatus
  loop_stopped human_rejected : WorkflowStatus

pub data RiskLevel : Type 0 where
  low medium high blocked : RiskLevel

pub data ToolName : Type 0 where
  read_alert inspect_metrics query_logs dependency_health restart_service : ToolName
  delete_database verify_recovery : ToolName

-- `tool.value`
abbrev pub value : ToolName → String
value read_alert = "read_alert"
value inspect_metrics = "inspect_metrics"
value query_logs = "query_logs"
value dependency_health = "dependency_health"
value restart_service = "restart_service"
value delete_database = "delete_database"
value verify_recovery = "verify_recovery"

abbrev pub tool_index : ToolName → ℕ
tool_index read_alert = 0
tool_index inspect_metrics = 1
tool_index query_logs = 2
tool_index dependency_health = 3
tool_index restart_service = 4
tool_index delete_database = 5
tool_index verify_recovery = 6

abbrev pub status_index : WorkflowStatus → ℕ
status_index queued = 0
status_index running = 1
status_index waiting_for_approval = 2
status_index completed = 3
status_index failed = 4
status_index dead_lettered = 5
status_index loop_stopped = 6
status_index human_rejected = 7

abbrev pub tool_beq : ToolName → ToolName → Bool
tool_beq a b = nat_beq (tool_index a) (tool_index b)

abbrev pub status_beq : WorkflowStatus → WorkflowStatus → Bool
status_beq a b = nat_beq (status_index a) (status_index b)

pub tool_beq_iff : (a b : ToolName) → (tool_beq a b ≡ true) ↔ (a ≡ b)
tool_beq_iff a b = ground arith

pub status_beq_iff : (a b : WorkflowStatus) → (status_beq a b ≡ true) ↔ (a ≡ b)
status_beq_iff a b = ground arith

instance abbrev pub tool_eq : Eq ToolName
tool_eq = record { beq = tool_beq; beq_iff = tool_beq_iff }

instance abbrev pub status_eq : Eq WorkflowStatus
status_eq = record { beq = status_beq; beq_iff = status_beq_iff }
