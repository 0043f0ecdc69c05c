-- ===== src/Tests/Fixture.antt =====
-- A scenario, a runtime with the deterministic engine, and the worlds that a run goes through.
use agent_resilience_runtime.Prelude.{ℕ, zero, suc, String, false, none, [], ◌∷◌}
use agent_resilience_runtime.Models.{Evidence}
use agent_resilience_runtime.Models.Values.{Json, Fields}
use agent_resilience_runtime.Loop.{default_detector}
use agent_resilience_runtime.Store.{World, Run}
use agent_resilience_runtime.Tools.{Digests}
use agent_resilience_runtime.Tools.Scenario.{Scenario, scenario_backend}
use agent_resilience_runtime.Engine.{deterministic_engine}
use agent_resilience_runtime.Runtime.{WorkflowRuntime}
use agent_resilience_runtime.Worker.{Settings, run_once}
use agent_resilience_runtime.Api.{create_incident, approve}
use agent_resilience_runtime.System.{initial}
use agent_resilience_runtime.Exec.{pure, ◌>>◌}

abbrev rate : ℕ → Json
rate n = Json.obj (
    Fields.field "error_rate_percent"
      (Json.num (record { negative = false; mantissa = n; scale = 1 })) Fields.end)

abbrev pub scenario : Scenario
scenario = record {
  transient_failures = [];
  alert = rate 125;
  metrics = rate 125;
  logs = rate 0;
  dependencies = rate 1;
  after_restart = rate 2;
}

-- Distinct digests for dicts of distinct sizes.
abbrev pub sizes : Digests
sizes = record {
  arguments_hash = λ a. elim a [ [] ↦ "0" | _ ∷ r ↦ elim r [ [] ↦ "1" | _ ∷ _ ↦ "2" ] ];
  evidence_hash = digest;
}
  where
    digest : Evidence → String
    digest [] = "e"
    digest (_ ∷ e) = String.◌∷◌ "x" (digest e)

abbrev pub runtime : WorkflowRuntime
runtime = record {
  digests = sizes;
  engine = deterministic_engine;
  backend = scenario_backend (("checkout-pool-exhaustion", scenario) ∷ []);
  loop_detector = default_detector;
  chaos_pause_tool = none;
  chaos_pause_after_steps = none;
  chaos_pause_seconds = 0;
}

abbrev pub config : Settings
config = record {
  queue_lease_seconds = 60_000_000;
  max_queue_attempts = 5;
  queue_retry_base_seconds = 0;
}

abbrev pub empty_world : World
empty_world = initial 1000

-- `n` rounds of one worker, and the last answer.
unfoldable pub rounds : ℕ → Run (Unit {0})
rounds zero = pure tt
rounds (suc n) = run_once runtime config "w" >> rounds n

abbrev pub created : World
created = (create_incident "i1" "find the fault" "checkout-pool-exhaustion" 5 empty_world).1

-- The workflow waits for the approval of a restart.
abbrev pub waiting : World
waiting = (rounds 5 created).1

abbrev pub approved : World
approved = (approve "i1" "oncall" none 5 waiting).1

abbrev pub finished : World
finished = (rounds 4 approved).1
