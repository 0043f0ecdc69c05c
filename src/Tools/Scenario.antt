-- ===== src/Tools/Scenario.antt =====
-- agent_resilience/tools.py: `ScenarioBackend`, the deterministic adapter that local runs use. The
-- scenarios file (fixtures/scenarios.json) is an argument.
use Prim.Native.String.{◌++◌ as concat}
use agent_resilience_runtime.Prelude.{
  ℕ, String, true, Option, none, some, List, [], ◌∷◌, ◌==◌, string_eq, ◌&&◌, leb, ltb,
  if◌then◌else◌,
}
use agent_resilience_runtime.Exec.{Result, ok, err, permanent, retryable}
use agent_resilience_runtime.Models.{
  ToolName, value, read_alert, inspect_metrics, query_logs, dependency_health, restart_service,
  delete_database, verify_recovery, tool_eq, Arguments, ArgValue, argument, WorkflowState, contains,
}
use agent_resilience_runtime.Models.Values.{Json, Fields}
use agent_resilience_runtime.Tools.Gateway.{ToolBackend}

pub record Scenario : Type 0 where
  pub transient_failures : List (ToolName × ℕ)
  pub alert : Json
  pub metrics : Json
  pub logs : Json
  pub dependencies : Json
  pub after_restart : Json

abbrev pub Scenarios : Type 0
Scenarios = List (String × Scenario)

abbrev pub scenario_of : String → Scenarios → Option Scenario
scenario_of k [] = none
scenario_of k ((j, v) ∷ s) = if j == k then some v else scenario_of k s

-- `int(transient_failures.get(tool.value, 0))`
abbrev pub transient_count : ToolName → List (ToolName × ℕ) → ℕ
transient_count t [] = 0
transient_count t ((u, n) ∷ rest) = if u == t then n else transient_count t rest

-- `arguments[key]` of a dict that a gateway has validated: both keys are there.
abbrev argument_json : Option ArgValue → Json
argument_json none = Json.null
argument_json (some ArgValue.null) = Json.null
argument_json (some (ArgValue.text s)) = Json.text s

abbrev pub respond : Scenario → WorkflowState → ToolName → Arguments → Result Json
respond c s read_alert a = ok c.alert
respond c s inspect_metrics a = ok c.metrics
respond c s query_logs a = ok c.logs
respond c s dependency_health a = ok c.dependencies
respond c s restart_service a = ok (
    Json.obj (
      Fields.field "service" (argument_json (argument "service" a)) (
        Fields.field "restarted" (Json.bool true)
          (Fields.field "environment" (argument_json (argument "environment" a)) Fields.end))))
respond c s verify_recovery a =
    ok (if contains restart_service s.completed_steps then c.after_restart else c.alert)
respond c s delete_database a = err (permanent "blocked tool reached backend")

abbrev pub answer_of : Option Scenario → WorkflowState → ToolName → Arguments → ℕ → Result Json
answer_of none s t a attempt = err (permanent (concat "unknown scenario: " s.scenario_id))
answer_of (some c) s t a attempt =
    if ltb 0 attempt && leb attempt (transient_count t c.transient_failures)
    then err (retryable (concat (value t) " downstream timed out"))
    else respond c s t a

-- `ScenarioBackend.execute`
unfoldable pub scenario_execute : Scenarios → WorkflowState → ToolName → Arguments → ℕ → Result Json
scenario_execute scenarios s t a attempt =
    answer_of (scenario_of s.scenario_id scenarios) s t a attempt

abbrev pub scenario_backend : Scenarios → ToolBackend
unfolding scenario_execute
scenario_backend scenarios = record { execute = λ n s t a k. scenario_execute scenarios s t a k }
