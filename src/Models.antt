-- ===== src/Models.antt =====
-- agent_resilience/models.py: the typed states, decisions and records that the parts exchange.
-- A `StrEnum` member is its string, so histories of tool names are lists of `ToolName`.
pub mod Values
pub mod Enums
pub use Enums.*
use agent_resilience_runtime.Prelude.{
  ℕ, String, Bool, true, false, not, Option, none, some, List, [], ◌∷◌, ◌==◌, string_eq,
  if◌then◌else◌, ◌&&◌,
}
use agent_resilience_runtime.Models.Values.{Json}

-- What an argument of a tool is: every value of the argument models is a string or `None`.
pub data ArgValue : Type 0 where
  null : ArgValue
  text : String → ArgValue

-- `dict[str, Any]` of arguments, in insertion order.
abbrev pub Arguments : Type 0
Arguments = List (String × ArgValue)

abbrev pub argument : String → Arguments → Option ArgValue
argument k [] = none
argument k ((j, v) ∷ a) = if j == k then some v else argument k a

pub record PendingAction : Type 0 where
  pub action_id : String
  pub tool : ToolName
  pub arguments : Arguments
  pub risk : RiskLevel
  pub rationale : String
  pub created_at : ℕ

-- `evidence: dict[str, Any]`, keyed by tool.
abbrev pub Evidence : Type 0
Evidence = List (ToolName × Json)

abbrev pub lookup : ToolName → Evidence → Option Json
lookup k [] = none
lookup k ((j, v) ∷ e) = if j == k then some v else lookup k e

-- `evidence[tool.value] = result`
abbrev pub insert : ToolName → Json → Evidence → Evidence
insert k v [] = (k, v) ∷ []
insert k v ((j, w) ∷ e) = if j == k then (j, v) ∷ e else (j, w) ∷ insert k v e

-- `name in names`
abbrev pub contains : ToolName → List ToolName → Bool
contains k [] = false
contains k (j ∷ l) = if j == k then true else contains k l

pub record WorkflowState : Type 0 where
  pub task_id : String
  pub goal : String
  pub scenario_id : String
  pub status : WorkflowStatus
  pub completed_steps : List ToolName
  pub current_step : Option ToolName
  pub evidence : Evidence
  pub tool_history : List ToolName
  pub progress_history : List String
  pub pending_action : Option PendingAction
  pub diagnosis : Option String
  pub remediation : Option String
  pub final_answer : Option String
  pub last_error : Option String
  pub retries : ℕ
  pub model_calls : ℕ
  pub input_tokens : ℕ
  pub output_tokens : ℕ
  pub tool_calls : ℕ
  pub version : ℕ
  pub created_at : ℕ
  pub updated_at : ℕ

-- `WorkflowState(task_id=..., goal=..., scenario_id=...)`: the other fields' defaults.
abbrev pub new_workflow : String → String → String → ℕ → WorkflowState
new_workflow id goal scenario now = record {
  task_id = id;
  goal = goal;
  scenario_id = scenario;
  status = queued;
  completed_steps = [];
  current_step = none;
  evidence = [];
  tool_history = [];
  progress_history = [];
  pending_action = none;
  diagnosis = none;
  remediation = none;
  final_answer = none;
  last_error = none;
  retries = 0;
  model_calls = 0;
  input_tokens = 0;
  output_tokens = 0;
  tool_calls = 0;
  version = 0;
  created_at = now;
  updated_at = now;
}

abbrev pub is_terminal : WorkflowStatus → Bool
is_terminal completed = true
is_terminal failed = true
is_terminal dead_lettered = true
is_terminal loop_stopped = true
is_terminal human_rejected = true
is_terminal _ = false

abbrev pub terminal : WorkflowState → Bool
terminal s = is_terminal s.status

pub data Environment : Type 0 where
  production staging test : Environment

abbrev pub environment_value : Environment → String
environment_value production = "production"
environment_value staging = "staging"
environment_value test = "test"

pub record AgentToolArguments : Type 0 where
  pub service : Option String
  pub environment : Option Environment
  pub dependency : Option String

pub data Action : Type 0 where
  use_tool complete fail : Action

pub record AgentDecision : Type 0 where
  pub action : Action
  pub rationale : String
  pub tool : Option ToolName
  pub arguments : AgentToolArguments
  pub diagnosis : Option String
  pub remediation : Option String
  pub final_answer : Option String

-- The truth value of `str | None`: `None` and the empty string are false.
abbrev pub truthy : Option String → Bool
truthy none = false
truthy (some s) = not (s == "")

-- `validate_action`: the message of the `ValueError` that it raises, if any.
abbrev pub validate_action_of : Action → AgentDecision → Option String
validate_action_of use_tool d = elim d.tool [
  | none ↦ some "tool is required when action is use_tool"
  | some t ↦
      if truthy d.arguments.service
      then none
      else some "service is required when action is use_tool"
]
validate_action_of complete d =
    if truthy d.final_answer then none else some "final_answer is required when action is complete"
validate_action_of fail d = none

pub validate_action : AgentDecision → Option String
validate_action d = validate_action_of d.action d

abbrev optional : String → Option String → Arguments → Arguments
optional k none rest = rest
optional k (some s) rest = (k, ArgValue.text s) ∷ rest

abbrev optional_environment : Option Environment → Arguments → Arguments
optional_environment none rest = rest
optional_environment (some e) rest = ("environment", ArgValue.text (environment_value e)) ∷ rest

-- `decision.arguments.model_dump(exclude_none=True)`
abbrev pub model_dump : AgentToolArguments → Arguments
model_dump a =
    optional "service" a.service
      (optional_environment a.environment (optional "dependency" a.dependency []))

-- A delivery id is the row id of the local queue.
pub record QueueDelivery : Type 0 where
  pub id : ℕ
  pub task_id : String
  pub attempts : ℕ
  pub max_attempts : ℕ
