-- ===== src/Tests/Rounds.antt =====
-- Two rounds in a row of agent_resilience/runtime.py.
use agent_resilience_runtime.Prelude.{◌+◌, ◌*◌, ◌-◌, ◌≤◌, refl, is_some, if◌then◌else◌, length}
use agent_resilience_runtime.Exec.{Result, ok, err}
use agent_resilience_runtime.Models.{WorkflowState}
use agent_resilience_runtime.Store.{World}
use agent_resilience_runtime.Runtime.{
  required_state, fail_workflow, progress_fingerprint, execute_tool, resume_approved_action,
  await_approval, chaos_pause, stop_loop, use_tool_step, complete_workflow, ask_engine, decide_step,
  process,
}
use agent_resilience_runtime.Runtime.Rounds.{start, round, rounds-bounded}
use agent_resilience_runtime.Engine.{deterministic_decide}
use agent_resilience_runtime.Policy.{is_production, evaluate}
use agent_resilience_runtime.Loop.{repeats_at, try_lengths, repeated_suffix, stalled, reason}
use agent_resilience_runtime.Tools.Validation.{
  is_service_name, is_environment, is_dependency, validate_service, validate_dependency, validate,
}
use agent_resilience_runtime.Tools.Gateway.{
  validate_and_decide, action_id, call_backend, gateway_execute,
}
use agent_resilience_runtime.Tools.Scenario.{scenario_execute}
use agent_resilience_runtime.Store.Checkpoints.{get_workflow, save_workflow}
use agent_resilience_runtime.Store.Events.{record_event}
use agent_resilience_runtime.Store.Results.{get_tool_result, save_tool_result}
use agent_resilience_runtime.Store.Approvals.{create_approval, approval_status}
use agent_resilience_runtime.Tests.Fixture.{runtime}
use agent_resilience_runtime.Tests.Stores.{job, stored}

abbrev state_of : Result WorkflowState → WorkflowState
state_of (ok s) = s
state_of (err e) = job

abbrev first : World
first = (process runtime "i1" stored).1

abbrev second_ : World
second_ = (process runtime "i1" first).1

abbrev after_first : WorkflowState
after_first = state_of (process runtime "i1" stored).0

abbrev after_second : WorkflowState
after_second = state_of (process runtime "i1" first).0

rounds-bounded_example :
    2
    ≤ 2 * (runtime.loop_detector.max_tool_calls - length job.tool_history)
      + (if is_some job.pending_action then 1 else 0)
      + 1
unfolding required_state fail_workflow progress_fingerprint execute_tool resume_approved_action
    await_approval chaos_pause stop_loop use_tool_step complete_workflow ask_engine decide_step
    process deterministic_decide is_production evaluate repeats_at try_lengths repeated_suffix
    stalled reason is_service_name is_environment is_dependency validate_service validate_dependency
    validate validate_and_decide action_id call_backend gateway_execute scenario_execute
    get_workflow save_workflow record_event get_tool_result save_tool_result create_approval
    approval_status
rounds-bounded_example = rounds-bounded runtime "i1" 2 job (
    round 1 job after_first stored first refl refl refl
      (round 0 after_first after_second first second_ refl refl refl (start after_second)))
