-- ===== src/AwsTools/Tools.antt =====
-- agent_resilience/aws_tools.py: `_read_alert`, `_query_logs`, `_restart_service`, and `execute`, which
-- chooses a tool's method and classifies what AWS raises.
use Prim.Native.Char.{code}
use Prim.Native.String.{◌++◌ as concat}
use agent_resilience_runtime.Prelude.{
  ℕ, String, Bool, true, false, Option, none, some, List, [], ◌∷◌, ◌==◌, string_eq, nat_eq, ◌&&◌,
  if◌then◌else◌, length, map, any,
}
use agent_resilience_runtime.Exec.{Result, permanent, other}
use agent_resilience_runtime.Models.{ToolName, value}
use agent_resilience_runtime.Store.{stored_error}
use agent_resilience_runtime.AwsTools.{
  Deployment, Alarm, LogEvent, Clients, Outcome, done, raised, runtime_error, then_do, asking,
  Health, Metrics, service_health, read_metrics, verify_recovery, classified,
}

pub record Alert : Type 0 where
  pub service : String
  pub alarms : List Alarm
  pub in_alarm : Bool

pub record Logs : Type 0 where
  pub log_group : String
  pub matches : ℕ
  pub events : List LogEvent

pub record Restart : Type 0 where
  pub service : String
  pub environment : String
  pub deployment_id : Option String
  pub deployment_status : Option String

-- The dict that a tool returns, by the tool.
pub data ToolAnswer : Type 0 where
  alert : Alert → ToolAnswer
  metrics : Metrics → ToolAnswer
  logs : Logs → ToolAnswer
  health : Health → ToolAnswer
  restart : Restart → ToolAnswer
  recovery : Health → Metrics → ToolAnswer

abbrev pub is_empty : String → Bool
is_empty String.[] = true
is_empty (String.◌∷◌ c s) = false

-- `prefix.rstrip('/')`
abbrev pub rstrip_slash : String → String
rstrip_slash String.[] = String.[]
rstrip_slash (String.◌∷◌ c s) =
    let rest = rstrip_slash s in
    if code c == 47 && is_empty rest then String.[] else String.◌∷◌ c rest

-- An alarm without a reason has the empty one, and without a time the present one.
abbrev pub alarm_of : ℕ → Alarm → Alarm
alarm_of now a = record a {
  reason = elim a.reason [ none ↦ some "" | some r ↦ some r ];
  updated_at = elim a.updated_at [ none ↦ some now | some t ↦ some t ];
}

abbrev pub is_alarm : Alarm → Bool
is_alarm a = a.state == "ALARM"

abbrev pub alert_of : String → ℕ → List Alarm → Alert
alert_of service now found = record {
  service = service;
  alarms = map (alarm_of now) found;
  in_alarm = any is_alarm (map (alarm_of now) found);
}

abbrev pub log_of : LogEvent → LogEvent
log_of e = record e { message = stored_error e.message }

abbrev pub logs_of : String → List LogEvent → Logs
logs_of group found = record {
  log_group = group;
  matches = length (map log_of found);
  events = map log_of found;
}

-- `.get("deployments", [{}])[0]`: an empty list has no first element.
abbrev pub restart_of : String → String → Option (List Deployment) → Outcome Restart
restart_of name environment none = done (record {
  service = name;
  environment = environment;
  deployment_id = none;
  deployment_status = none;
})
restart_of name environment (some []) = raised (runtime_error (other "IndexError"))
restart_of name environment (some (d ∷ _)) = done (record {
  service = name;
  environment = environment;
  deployment_id = d.id;
  deployment_status = d.status;
})

module _ (clients : Clients) (service_prefix log_prefix : String) (now : ℕ) where
  unfoldable pub read_alert : String → Outcome Alert
  read_alert service =
      then_do (asking (clients.describe_alarms service))
        (λ found. done (alert_of service now found))

  unfoldable pub query_logs : String → Outcome Logs
  query_logs service =
      let group = concat (rstrip_slash log_prefix) (concat "/" service) in
      then_do (asking (clients.filter_log_events group)) (λ found. done (logs_of group found))

  unfoldable pub restart_service : String → String → Outcome Restart
  restart_service service environment =
      let name = concat service_prefix service in
      then_do (asking (clients.update_service name)) (restart_of name environment)

  abbrev pub run_tool : ToolName → String → String → Outcome ToolAnswer
  run_tool ToolName.read_alert service environment =
      then_do (read_alert service) (λ a. done (alert a))
  run_tool ToolName.inspect_metrics service environment =
      then_do (read_metrics clients service_prefix) (λ m. done (metrics m))
  run_tool ToolName.query_logs service environment =
      then_do (query_logs service) (λ l. done (logs l))
  run_tool ToolName.dependency_health service environment =
      then_do (service_health clients service_prefix service) (λ h. done (health h))
  run_tool ToolName.restart_service service environment =
      then_do (restart_service service environment) (λ r. done (restart r))
  run_tool ToolName.verify_recovery service environment =
      then_do (verify_recovery clients service_prefix service) (λ r. done (recovery r.0 r.1))
  run_tool t service environment =
      raised (runtime_error (permanent (concat "AWS backend does not implement " (value t))))

  -- `execute`
  unfoldable pub execute : ToolName → String → String → Result ToolAnswer
  execute t service environment = classified t (run_tool t service environment)
