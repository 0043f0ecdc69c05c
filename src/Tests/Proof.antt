-- ===== src/Tests/Proof.antt =====
-- A recovery that scripts/verify_milestone4.py observes: the worker `t1` is stopped at the fourth
-- step, and `t2` finishes the workflow.
use agent_resilience_runtime.Prelude.{
  ℕ, ◌+◌, Bool, true, false, none, some, [], ◌∷◌, ◌≡◌, if◌then◌else◌, take, ◌==◌, nat_eq, arith,
}
use agent_resilience_runtime.Exec.{ok}
use agent_resilience_runtime.Models.{
  WorkflowState, WorkflowStatus, running, waiting_for_approval, completed, dependency_health,
  restart_service,
}
use agent_resilience_runtime.Models.Values.{Json}
use agent_resilience_runtime.Store.{EventBody}
use agent_resilience_runtime.Milestone.{
  Deployment, Arguments, Report, expected_steps, wait_for_state, is_paused,
}
use agent_resilience_runtime.Milestone.Poll.{IsClock, wait_for_state-ends}
use agent_resilience_runtime.Tests.Stores.{job}

pub record Site : Type 0 where
  pub now : ℕ
  pub looks : ℕ
  pub stopped : Bool

abbrev steps : ℕ → WorkflowStatus → WorkflowState
steps n status = record job {
  status = status;
  completed_steps = take n expected_steps;
  current_step = some dependency_health;
  tool_calls = n;
}

-- What the control plane answers to each look.
abbrev seen : ℕ → WorkflowState
seen n =
    if n == 0
    then steps 3 running
    else if n == 1
    then steps 4 running
    else if n == 2
    then steps 4 waiting_for_approval
    else steps 6 completed

abbrev site : Deployment Site
site = record {
  monotonic = λ s. s.now;
  sleep = λ n s. record s { now = s.now + n };
  caller_account = λ s. (ok (some "1234"), s);
  create_incident = λ goal scenario s. (ok "i1", s);
  get_incident = λ id s. (ok (seen s.looks), record s { looks = s.looks + 1 });
  approve = λ id actor why s. (ok tt, s);
  get_events = λ id s. (
    ok (
        EventBody.approval_granted "operator" none
        ∷ EventBody.tool_completed restart_service false Json.null
        ∷ []),
    s,
  );
  list_tasks = λ s. (ok ((if s.stopped then "c/t2" else "c/t1") ∷ []), s);
  stop_task = λ task why s. (ok tt, record s { stopped = true });
}

abbrev args : Arguments
args = record { token = some "t"; goal = "find the fault"; actor = "operator"; timeout = 1_000_000 }

abbrev before : Site
before = record { now = 0; looks = 0; stopped = false }

abbrev after : Site
after = record { now = 0; looks = 4; stopped = true }

abbrev report : Report
report = record {
  aws_identity_verified = true;
  incident_id = "i1";
  stopped_worker_task = "t1";
  replacement_worker_task = "t2";
  checkpoint_before_kill = take 3 expected_steps;
  resumed_step = some dependency_health;
  final_status = completed;
  completed_steps = expected_steps;
  restart_side_effect_count = 1;
  model_calls = 0;
  tool_calls = 6;
  retries = 0;
}

site-IsClock : IsClock site
site-IsClock = record { sleeps = λ n s. omega arith; goes_on = λ id s. omega arith }

wait_for_state-ends_example :
    wait_for_state site 5 args "i1" is_paused "three steps" before
    ≡ wait_for_state site 2 args "i1" is_paused "three steps" before
wait_for_state-ends_example =
    wait_for_state-ends site site-IsClock args 2 5 "i1" is_paused "three steps" before (omega arith)
      (omega arith)
