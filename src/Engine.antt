-- ===== src/Engine.antt =====
-- agent_resilience/decision.py: the `DecisionEngine` interface, and the offline
-- `DeterministicDecisionEngine`.
use agent_resilience_runtime.Prelude.{
  ℕ, String, Bool, true, false, not, Option, none, some, List, [], ◌∷◌, if◌then◌else◌,
}
use agent_resilience_runtime.Exec.{Result, ok, err, other}
use agent_resilience_runtime.Models.{
  ToolName, read_alert, inspect_metrics, query_logs, dependency_health, restart_service,
  verify_recovery, WorkflowState, AgentDecision, AgentToolArguments, use_tool, complete, fail,
  production, Evidence, lookup, contains,
}
use agent_resilience_runtime.Models.Values.{Json, Fields, get, below_one}

-- An answer, and the usage that the engine reports after it, may depend on the number of questions
-- put before.
pub record DecisionEngine : Type 0 where
  pub decide : ℕ → WorkflowState → Result AgentDecision
  pub take_usage : ℕ → ℕ × ℕ

abbrev defaults : AgentToolArguments
defaults = record {
  service = some "checkout-service";
  environment = some production;
  dependency = none;
}

abbrev step_with : ToolName → String → Option String → AgentDecision
step_with t why diagnosis = record {
  action = use_tool;
  rationale = why;
  tool = some t;
  arguments = defaults;
  diagnosis = diagnosis;
  remediation = none;
  final_answer = none;
}

abbrev no_arguments : AgentToolArguments
no_arguments = record { service = none; environment = none; dependency = none }

abbrev recovered_decision : AgentDecision
recovered_decision = record {
  action = complete;
  rationale = "recovery evidence meets threshold";
  tool = none;
  arguments = no_arguments;
  diagnosis = some "database connection pool exhaustion";
  remediation = some "checkout-service restarted after approval";
  final_answer = some "Checkout recovered: error rate is below 1% after the approved restart.";
}

abbrev not_recovered_decision : AgentDecision
not_recovered_decision = record {
  action = fail;
  rationale = "restart did not restore service health";
  tool = none;
  arguments = no_arguments;
  diagnosis = some "upstream dependency failure";
  remediation = some "escalate to the dependency owner";
  final_answer = none;
}

-- The evidence that is collected in turn, each with the rationale `collect {key} evidence`.
abbrev sequence : List (ToolName × String)
sequence =
    (read_alert, "collect read_alert evidence")
    ∷ (inspect_metrics, "collect inspect_metrics evidence")
    ∷ (query_logs, "collect query_logs evidence")
    ∷ (dependency_health, "collect dependency_health evidence")
    ∷ []

abbrev missing : List (ToolName × String) → Evidence → Option (ToolName × String)
missing [] e = none
missing ((t, why) ∷ rest) e = elim (lookup t e) [ none ↦ some (t, why) | some v ↦ missing rest e ]

-- `rate is not None and float(rate) < 1.0`. `float` of a list or a dict raises; of a text it would
-- parse the number, where the model raises too: no tool reports a rate as text.
abbrev rate_recovers : Option Json → Result Bool
rate_recovers none = ok false
rate_recovers (some Json.null) = ok false
rate_recovers (some (Json.num d)) = ok (below_one d)
rate_recovers (some (Json.bool b)) = ok (not b)
rate_recovers (some _) = err (other "float")

abbrev metrics_rate : Json → Result Bool
metrics_rate (Json.obj fs) = rate_recovers (get "error_rate_percent" fs)
metrics_rate _ = err (other "get")

-- `verification.get("metrics", verification)`
abbrev metrics_of : Option Json → Fields → Json
metrics_of none fs = Json.obj fs
metrics_of (some m) fs = m

abbrev recovery : Json → Result Bool
recovery (Json.obj fs) = metrics_rate (metrics_of (get "metrics" fs) fs)
recovery _ = err (other "get")

abbrev conclude : Result Bool → Result AgentDecision
conclude (ok true) = ok recovered_decision
conclude (ok false) = ok not_recovered_decision
conclude (err e) = err e

abbrev after_restart : Option Json → Result AgentDecision
after_restart none = ok (step_with verify_recovery "verify recovery" none)
after_restart (some v) = conclude (recovery v)

abbrev next_step : Option (ToolName × String) → WorkflowState → Result AgentDecision
next_step (some (t, why)) s = ok (step_with t why none)
next_step none s =
    if contains restart_service s.completed_steps
    then after_restart (lookup verify_recovery s.evidence)
    else ok (
        step_with restart_service "evidence supports a bounded service restart"
          (some "database connection pool exhaustion"))

-- `DeterministicDecisionEngine.decide`
unfoldable pub deterministic_decide : WorkflowState → Result AgentDecision
deterministic_decide s = next_step (missing sequence s.evidence) s

abbrev pub deterministic_engine : DecisionEngine
unfolding deterministic_decide
deterministic_engine = record { decide = λ n s. deterministic_decide s; take_usage = λ n. (0, 0) }
