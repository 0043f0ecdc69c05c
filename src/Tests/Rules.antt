-- ===== src/Tests/Rules.antt =====
-- Instances of the theorems on agent_resilience/loop_detector.py, agent_resilience/policy.py,
-- agent_resilience/aws_tools.py, the validation of agent_resilience/tools.py, and the authorisation
-- and the summary of agent_resilience/api.py.
use agent_resilience_runtime.Prelude.{
  String, true, false, none, some, List, [], ◌∷◌, ◌≡◌, ◌≢◌, ◌↔◌, refl, ◌<◌, length, nat_eq,
  string_eq, arith, ◌==◌, ◌+◌,
}
use agent_resilience_runtime.Exec.{ok, err, http_exception}
use agent_resilience_runtime.Models.{
  ToolName, read_alert, restart_service, delete_database, tool_eq, high, blocked, Arguments,
  ArgValue,
}
use agent_resilience_runtime.Loop.{default_detector, reason, new_detector, repeated_suffix}
use agent_resilience_runtime.Loop.Suffix.{EndsInRepeats, repeated_suffix_iff}
use agent_resilience_runtime.Loop.Reason.{IsStalled, reason-none}
use agent_resilience_runtime.Loop.Retries.{reason-default_stops}
use agent_resilience_runtime.Policy.{evaluate, is_production}
use agent_resilience_runtime.Policy.Laws.{evaluate-unattended, evaluate-risk}
use agent_resilience_runtime.Tools.Validation.{validate, is_service_name, is_environment}
use agent_resilience_runtime.Tools.Validation.Laws.{
  IsValidated, validate_idem, is_production-validated,
}
use agent_resilience_runtime.Api.{Tokens, require_admin, require_viewer, administrator}
use agent_resilience_runtime.Api.Access.{require_admin-roles}
use agent_resilience_runtime.Models.{
  truthy, WorkflowState, new_workflow, queued, running, waiting_for_approval, failed, dead_lettered,
  loop_stopped, human_rejected,
}
use agent_resilience_runtime.Models.Values.{Decimal}
use agent_resilience_runtime.AwsTools.{
  Clients, Answer, EcsService, Datapoint, Metrics, health_of, verify_recovery, service_health,
  read_metrics,
}
use agent_resilience_runtime.AwsTools.Tools.{execute}
use agent_resilience_runtime.AwsTools.Recovery.{IsRecovered, execute-IsRecovered}
use agent_resilience_runtime.Api.Summary.{summary_of, summary_of-adds_up}

abbrev tools : List ToolName
tools = restart_service ∷ read_alert ∷ read_alert ∷ read_alert ∷ read_alert ∷ []

abbrev prints : List String
prints = "a" ∷ "a" ∷ "b" ∷ []

repeated_suffix_iff_example : (repeated_suffix 4 tools ≡ true) ↔ EndsInRepeats 4 tools
repeated_suffix_iff_example = repeated_suffix_iff 4 tools (omega arith)

reason-none_example :
    (reason default_detector tools prints ≡ none)
    ↔ ((length tools < 20) × (EndsInRepeats 4 tools → ⊥) × (IsStalled 4 prints → ⊥))
unfolding new_detector
reason-none_example = reason-none 4 20 default_detector tools prints refl

abbrev stuck_prints : List String
stuck_prints = "a" ∷ "b" ∷ "b" ∷ "b" ∷ "b" ∷ []

reason-default_stops_example : reason default_detector tools stuck_prints ≢ none
reason-default_stops_example = reason-default_stops tools ("a" ∷ []) "b"

abbrev request : Arguments
request = ("service", ArgValue.text "checkout") ∷ ("environment", ArgValue.text "staging") ∷ []

evaluate-unattended_example :
    (((evaluate restart_service request).allowed ≡ true)
      × ((evaluate restart_service request).approval_required ≡ false))
    ↔ ((restart_service ≢ delete_database)
        × (restart_service ≡ restart_service → is_production request ≡ false))
evaluate-unattended_example = evaluate-unattended restart_service request

evaluate-risk_example :
    (((evaluate restart_service request).risk ≡ blocked)
      ↔ ((evaluate restart_service request).allowed ≡ false))
    × (((evaluate restart_service request).risk ≡ high)
        ↔ ((evaluate restart_service request).approval_required ≡ true))
    × ((evaluate restart_service request).approval_required ≡ true
        → (evaluate restart_service request).allowed ≡ true)
evaluate-risk_example = evaluate-risk restart_service request

validate_idem_example : IsValidated request × (validate restart_service request ≡ some request)
unfolding validate is_service_name is_environment
validate_idem_example = validate_idem restart_service request refl

request-IsValidated : IsValidated request
unfolding is_service_name is_environment
request-IsValidated = record {
  service = "checkout";
  environment = "staging";
  has_service = refl;
  has_environment = refl;
  service_ok = refl;
  environment_ok = refl;
}

is_production-validated_example :
    is_production request ≡ (request-IsValidated.environment == "production")
is_production-validated_example = is_production-validated request request-IsValidated

abbrev tokens : Tokens
tokens = record { admin_api_token = none; viewer_api_token = some "v" }

require_admin-roles_example :
    (require_viewer tokens none ≡ ok administrator → require_admin tokens none ≡ ok tt)
    × (truthy tokens.admin_api_token ≡ false → require_admin tokens none ≡ ok tt)
    × (truthy tokens.admin_api_token ≡ false
        → truthy tokens.viewer_api_token ≡ true
        → require_viewer tokens none
          ≡ err (http_exception 401 "valid control-plane bearer token required"))
require_admin-roles_example = require_admin-roles tokens none

abbrev one_incident : List WorkflowState
one_incident = new_workflow "i1" "find the fault" "checkout-pool-exhaustion" 1000 ∷ []

summary_of-adds_up_example :
    let s = summary_of one_incident [] in
    (s.active_incidents + s.terminal_incidents ≡ s.total_incidents)
    × (s.active_incidents
        ≡ s.statuses queued + s.statuses running + s.statuses waiting_for_approval)
    × (s.terminal_incidents
        ≡ s.completed_incidents
          + s.statuses failed
          + s.statuses dead_lettered
          + s.statuses loop_stopped
          + s.statuses human_rejected)
summary_of-adds_up_example = summary_of-adds_up one_incident []

abbrev deployed : EcsService
deployed = record {
  status = some "ACTIVE";
  desired_count = some 2;
  running_count = some 2;
  pending_count = none;
  deployments =
      record { id = some "d1"; status = some "PRIMARY"; rollout_state = some "COMPLETED" } ∷ [];
}

abbrev low_error_rate : Decimal
low_error_rate = record { negative = false; mantissa = 2; scale = 1 }

abbrev point : Datapoint
point = record { timestamp = 1; statistic = none; average = some low_error_rate }

abbrev clients : Clients
clients = record {
  describe_services = λ name. Answer.answer (record { failures = []; services = deployed ∷ [] });
  get_metric_statistics = λ metric. Answer.answer (point ∷ []);
  describe_alarms = λ prefix. Answer.answer [];
  filter_log_events = λ group. Answer.answer [];
  update_service = λ name. Answer.answer none;
}

abbrev metrics : Metrics
metrics = record { error_rate_percent = some low_error_rate; p95_latency_ms = some low_error_rate }

execute-IsRecovered_example :
    IsRecovered clients "prod-checkout" (health_of "prod-checkout" deployed) metrics
unfolding execute verify_recovery service_health read_metrics
execute-IsRecovered_example =
    execute-IsRecovered clients "prod-" "/services" 1 ToolName.verify_recovery "checkout"
      "production" (health_of "prod-checkout" deployed) metrics refl
