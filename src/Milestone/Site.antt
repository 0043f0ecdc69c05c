-- ===== src/Milestone/Site.antt =====
-- The parameters and the records of scripts/verify_milestone4.py, and its checks.
use Prim.Native.Char.{code}
use agent_resilience_runtime.Prelude.{
  ℕ, String, Bool, true, false, not, Option, none, some, List, [], ◌∷◌, ◌++◌, ◌==◌, ◌&&◌, ◌||◌,
  nat_eq, string_eq, if◌then◌else◌, length, take, any, count_where, is_some, list_beq,
}
use agent_resilience_runtime.Exec.{Exec}
use agent_resilience_runtime.Models.{
  WorkflowState, WorkflowStatus, failed, dead_lettered, loop_stopped, human_rejected, status_eq,
  ToolName, tool_eq, read_alert, inspect_metrics, query_logs, dependency_health, restart_service,
  verify_recovery, contains, truthy,
}
use agent_resilience_runtime.Store.{EventBody}

-- Where the proof runs: the clock, the endpoints of the control plane, and ECS. A request that fails
-- raises.
pub record Deployment (S : Type 0) : Type 0 where
  pub monotonic : S → ℕ
  pub sleep : ℕ → S → S
  pub caller_account : Exec S (Option String)
  pub create_incident : String → String → Exec S String
  pub get_incident : String → Exec S WorkflowState
  pub approve : String → String → String → Exec S (Unit {0})
  pub get_events : String → Exec S (List EventBody)
  pub list_tasks : Exec S (List String)
  pub stop_task : String → String → Exec S (Unit {0})

-- The arguments of the command line that the proof depends on, and the token; the timeout is in
-- microseconds.
pub record Arguments : Type 0 where
  pub token : Option String
  pub goal : String
  pub actor : String
  pub timeout : ℕ

pub record Report : Type 0 where
  pub aws_identity_verified : Bool
  pub incident_id : String
  pub stopped_worker_task : String
  pub replacement_worker_task : String
  pub checkpoint_before_kill : List ToolName
  pub resumed_step : Option ToolName
  pub final_status : WorkflowStatus
  pub completed_steps : List ToolName
  pub restart_side_effect_count : ℕ
  pub model_calls : ℕ
  pub tool_calls : ℕ
  pub retries : ℕ

-- `EXPECTED_STEPS`
abbrev pub expected_steps : List ToolName
expected_steps =
    read_alert ∷ inspect_metrics ∷ query_logs ∷ dependency_health ∷ restart_service
    ∷ verify_recovery ∷ []

abbrev pub has_ended_badly : WorkflowStatus → Bool
has_ended_badly failed = true
has_ended_badly dead_lettered = true
has_ended_badly loop_stopped = true
has_ended_badly human_rejected = true
has_ended_badly _ = false

abbrev pub is_paused : WorkflowState → Bool
is_paused s = length s.completed_steps == 3 && is_some s.current_step

-- `completed_steps[:4] == checkpoint_steps + [resumed_step]`; no step equals `None`.
abbrev pub has_resumed : List ToolName → Option ToolName → WorkflowState → Bool
has_resumed checkpoint none s = false
has_resumed checkpoint (some t) s = list_beq (take 4 s.completed_steps) (checkpoint ++ t ∷ [])

abbrev pub has_status : WorkflowStatus → WorkflowState → Bool
has_status status s = s.status == status

abbrev pub is_restart : EventBody → Bool
is_restart (EventBody.tool_completed t cached result) = t == restart_service
is_restart _ = false

abbrev pub is_grant : EventBody → Bool
is_grant (EventBody.approval_granted actor why) = true
is_grant _ = false

abbrev pub contains_all : List ToolName → List ToolName → Bool
contains_all [] steps = true
contains_all (t ∷ ts) steps = contains t steps && contains_all ts steps

-- The steps are the expected ones, in any order.
abbrev pub are_expected : List ToolName → Bool
are_expected steps =
    length steps == length expected_steps
    && (contains_all steps expected_steps && contains_all expected_steps steps)

abbrev pub is_other : String → String → Bool
is_other stopped task = not (task == stopped)

abbrev pub has_slash : String → Bool
has_slash String.[] = false
has_slash (String.◌∷◌ c s) = code c == 47 || has_slash s

-- `task_arn.rsplit("/", 1)[-1]`
abbrev pub task_id : String → String
task_id String.[] = String.[]
task_id (String.◌∷◌ c s) =
    let rest = task_id s in if has_slash s then rest else if code c == 47 then s else String.◌∷◌ c s

-- The checks on the finished workflow and its audit trail: the first that fails.
abbrev pub flaw : WorkflowState → WorkflowState → WorkflowState → List EventBody → Option String
flaw paused resumed done events =
    if not (are_expected done.completed_steps)
    then some "unexpected completed step sequence"
    else if not (count_where is_restart events == 1)
    then some "idempotency proof failed: restart_service did not complete exactly once"
    else if not (any is_grant events)
    then some "approval audit event is missing"
    else if not (has_resumed paused.completed_steps paused.current_step resumed)
        || not (paused.tool_calls == 3)
    then some "workflow did not resume from the last known good checkpoint"
    else none

abbrev pub report_of :
    Option String
    → String
    → WorkflowState
    → String
    → String
    → WorkflowState
    → List EventBody
    → Report
report_of account id paused stopped replacement done events = record {
  aws_identity_verified = truthy account;
  incident_id = id;
  stopped_worker_task = task_id stopped;
  replacement_worker_task = task_id replacement;
  checkpoint_before_kill = paused.completed_steps;
  resumed_step = paused.current_step;
  final_status = done.status;
  completed_steps = done.completed_steps;
  restart_side_effect_count = count_where is_restart events;
  model_calls = done.model_calls;
  tool_calls = done.tool_calls;
  retries = done.retries;
}
