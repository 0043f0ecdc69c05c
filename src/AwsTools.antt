-- ===== src/AwsTools.antt =====
-- agent_resilience/aws_tools.py: `AWSOperationsBackend`: the health of an ECS service, the verification
-- of a recovery, and the classification of AWS failures; Tools has the other tools. The clients are
-- parameters; numbers in an answer are natural numbers and decimals.
pub mod Evidence
pub mod Recovery
pub mod Tools
use Prim.Native.String.{◌++◌ as concat}
use agent_resilience_runtime.Prelude.{
  ℕ, String, Bool, true, false, not, Option, none, some, List, [], ◌∷◌, ◌==◌, string_eq, nat_eq,
  ◌&&◌, ◌||◌, leb, if◌then◌else◌, length, take, any,
}
use agent_resilience_runtime.Exec.{Result, ok, err, Failure, permanent, retryable}
use agent_resilience_runtime.Models.{ToolName, value}
use agent_resilience_runtime.Models.Values.{Decimal, below_one}
use agent_resilience_runtime.Store.{truncate}

pub record Deployment : Type 0 where
  pub id : Option String
  pub status : Option String
  pub rollout_state : Option String

pub record EcsService : Type 0 where
  pub status : Option String
  pub desired_count : Option ℕ
  pub running_count : Option ℕ
  pub pending_count : Option ℕ
  pub deployments : List Deployment

-- The answer of `describe_services`: the reasons of its failures, and the services.
pub record Described : Type 0 where
  pub failures : List (Option String)
  pub services : List EcsService

pub record Datapoint : Type 0 where
  pub timestamp : ℕ
  pub statistic : Option Decimal
  pub average : Option Decimal

pub data AwsError : Type 0 where
  client_error : Option String → AwsError
  boto_core_error : String → AwsError

pub data Answer (A : Type 0) : Type 0 where
  answer : A → Answer A
  failure : AwsError → Answer A

pub record Alarm : Type 0 where
  pub name : String
  pub state : String
  pub reason : Option String
  pub updated_at : Option ℕ

pub record LogEvent : Type 0 where
  pub timestamp : ℕ
  pub message : String

-- boto3's clients, as far as they are asked; the metrics are those of one service and environment, and
-- an updated service may lack its deployments.
pub record Clients : Type 0 where
  pub describe_alarms : String → Answer (List Alarm)
  pub filter_log_events : String → Answer (List LogEvent)
  pub update_service : String → Answer (Option (List Deployment))
  pub describe_services : String → Answer Described
  pub get_metric_statistics : String → Answer (List Datapoint)

-- What a method raises: an error of the runtime, or one of AWS that `execute` classifies.
pub data Raised : Type 0 where
  runtime_error : Failure → Raised
  aws_error : AwsError → Raised

pub data Outcome (A : Type 0) : Type 0 where
  done : A → Outcome A
  raised : Raised → Outcome A

abbrev pub then_do : {A B : Type 0} → Outcome A → (A → Outcome B) → Outcome B
then_do (done a) f = f a
then_do (raised e) f = raised e

abbrev pub asking : {A : Type 0} → Answer A → Outcome A
asking (answer a) = done a
asking (failure e) = raised (aws_error e)

abbrev pub or_zero : Option ℕ → ℕ
or_zero none = 0
or_zero (some n) = n

pub record Health : Type 0 where
  pub service : String
  pub status : Option String
  pub desired_count : ℕ
  pub running_count : ℕ
  pub pending_count : ℕ
  pub deployments : List Deployment

abbrev pub health_of : String → EcsService → Health
health_of name s = record {
  service = name;
  status = s.status;
  desired_count = or_zero s.desired_count;
  running_count = or_zero s.running_count;
  pending_count = or_zero s.pending_count;
  deployments = take 5 s.deployments;
}

abbrev pub or_unknown : Option String → String
or_unknown none = "unknown"
or_unknown (some s) = s

abbrev pub first_service : String → List EcsService → Outcome Health
first_service name [] = raised (runtime_error (permanent (concat "ECS service not found: " name)))
first_service name (s ∷ _) = done (health_of name s)

abbrev pub health_answer : String → Described → Outcome Health
health_answer name d = elim d.failures [
  | [] ↦ first_service name d.services
  | reason ∷ _ ↦
      raised (runtime_error (permanent (concat "ECS service lookup failed: " (or_unknown reason))))
]

-- `latest.get(statistic, latest.get("Average", 0))`
abbrev pub value_of : Datapoint → Decimal
value_of p = elim p.statistic [
  | some v ↦ v
  | none ↦ elim p.average [
    | some v ↦ v
    | none ↦ record { negative = false; mantissa = 0; scale = 0 }
  ]
]

-- `max(points, key=...)`, the first of those with the greatest timestamp.
abbrev pub later : Datapoint → Option Datapoint → Datapoint
later p none = p
later p (some q) = if leb q.timestamp p.timestamp then p else q

abbrev pub latest : List Datapoint → Option Datapoint
latest [] = none
latest (p ∷ ps) = some (later p (latest ps))

abbrev pub metric_value : Option Datapoint → Option Decimal
metric_value none = none
metric_value (some p) = some (value_of p)

pub record Metrics : Type 0 where
  pub error_rate_percent : Option Decimal
  pub p95_latency_ms : Option Decimal

-- `rollout_state in {None, "COMPLETED"}`
abbrev pub is_rolled_out : Option String → Bool
is_rolled_out none = true
is_rolled_out (some s) = s == "COMPLETED"

abbrev pub one_rolled_out : List Deployment → Bool
one_rolled_out (d ∷ []) = is_rolled_out d.rollout_state
one_rolled_out _ = false

abbrev pub rollout_complete : Health → Bool
rollout_complete h =
    leb h.desired_count h.running_count && h.pending_count == 0 && one_rolled_out h.deployments

abbrev pub is_low : Option Decimal → Bool
is_low none = false
is_low (some rate) = below_one rate

abbrev pub code_of : Option String → String
code_of none = "Unknown"
code_of (some s) = s

-- `_classify`
unfoldable pub classify : AwsError → ToolName → Failure
classify (boto_core_error name) t =
    retryable
      (concat "AWS tool " (concat (value t) (concat " transport failure (" (concat name ")"))))
classify (client_error code) t =
    let c = code_of code in
    let text = concat "AWS tool " (concat (value t) (concat " failed (" (concat c ")"))) in
    if truncate 7 c == "Throttl"
      || (c == "InternalError"
          || c == "InternalFailure"
          || c == "RequestLimitExceeded"
          || c == "ServiceUnavailable"
          || c == "ServiceUnavailableException")
    then retryable text
    else permanent text

-- The `except` clauses of `execute`.
abbrev pub classified : {A : Type 0} → ToolName → Outcome A → Result A
classified t (done a) = ok a
classified t (raised (runtime_error e)) = err e
classified t (raised (aws_error e)) = err (classify e t)

module _ (clients : Clients) (prefix : String) where
  -- `_service_health`
  unfoldable pub service_health : String → Outcome Health
  service_health requested =
      then_do (asking (clients.describe_services (concat prefix requested)))
        (health_answer (concat prefix requested))

  -- `_inspect_metrics`
  unfoldable pub read_metrics : Outcome Metrics
  read_metrics = then_do (asking (clients.get_metric_statistics "ErrorRate")) (λ errors.
      then_do (asking (clients.get_metric_statistics "Latency")) (λ latencies. done (record {
        error_rate_percent = metric_value (latest errors);
        p95_latency_ms = metric_value (latest latencies);
      })))

  abbrev pub checked_rate : Health → Metrics → Outcome (Health × Metrics)
  checked_rate h m =
      if is_low m.error_rate_percent
      then done (h, m)
      else raised (
          runtime_error (retryable "healthy post-restart CloudWatch evidence is not available yet"))

  abbrev pub checked_rollout : Health → Outcome (Health × Metrics)
  checked_rollout h =
      if rollout_complete h
      then then_do read_metrics (checked_rate h)
      else raised (runtime_error (retryable "ECS replacement deployment is not stable yet"))

  -- `_verify_recovery`
  unfoldable pub verify_recovery : String → Outcome (Health × Metrics)
  verify_recovery requested = then_do (service_health requested) checked_rollout
