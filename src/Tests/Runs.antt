-- ===== src/Tests/Runs.antt =====
-- One incident from its creation to its end: agent_resilience/api.py, agent_resilience/worker.py and
-- agent_resilience/runtime.py with the deterministic engine of agent_resilience/decision.py.
use agent_resilience_runtime.Prelude.{map, [], ◌∷◌, ◌≡◌, refl}
use agent_resilience_runtime.Models.{
  read_alert, inspect_metrics, query_logs, dependency_health, completed,
}
use agent_resilience_runtime.Tests.Fixture.{rounds, waiting, finished}
use agent_resilience_runtime.Runtime.{
  required_state, fail_workflow, progress_fingerprint, execute_tool, resume_approved_action,
  await_approval, chaos_pause, stop_loop, use_tool_step, complete_workflow, ask_engine, decide_step,
  process,
}
use agent_resilience_runtime.Worker.{heartbeat, on_retryable, on_permanent, deliver, run_once}
use agent_resilience_runtime.Api.{
  require_admin, require_viewer, required, create_incident, approve, reject, replay,
}
use agent_resilience_runtime.Engine.{deterministic_decide}
use agent_resilience_runtime.Policy.{is_production, evaluate}
use agent_resilience_runtime.Loop.{
  new_detector, repeats_at, try_lengths, repeated_suffix, stalled, reason,
}
use agent_resilience_runtime.Tools.Validation.{
  is_service_name, is_environment, is_dependency, validate_service, validate_dependency, validate,
}
use agent_resilience_runtime.Tools.Gateway.{
  validate_and_decide, action_id, call_backend, gateway_execute,
}
use agent_resilience_runtime.Tools.Scenario.{scenario_execute}
use agent_resilience_runtime.Store.Checkpoints.{create_workflow, get_workflow, save_workflow}
use agent_resilience_runtime.Store.Events.{record_event, list_events}
use agent_resilience_runtime.Store.Queue.{
  enqueue, claim, acknowledge, extend_lease, retry_delay, stored_error, retry_or_dead_letter,
  queue_count,
}
use agent_resilience_runtime.Store.Results.{get_tool_result, save_tool_result}
use agent_resilience_runtime.Store.Approvals.{create_approval, resolve_approval, approval_status}

-- Five rounds of a worker: four reads, and then the restart waits for its approval.
waiting_calls :
    map (λ c. c.tool) waiting.calls
    ≡ read_alert ∷ inspect_metrics ∷ query_logs ∷ dependency_health ∷ []
unfolding rounds required_state fail_workflow progress_fingerprint execute_tool
    resume_approved_action await_approval chaos_pause stop_loop use_tool_step complete_workflow
    ask_engine decide_step process heartbeat on_retryable on_permanent deliver run_once
    require_admin require_viewer required create_incident approve reject replay deterministic_decide
    is_production evaluate new_detector repeats_at try_lengths repeated_suffix stalled reason
    is_service_name is_environment is_dependency validate_service validate_dependency validate
    validate_and_decide action_id call_backend gateway_execute scenario_execute create_workflow
    get_workflow save_workflow record_event list_events enqueue claim acknowledge extend_lease
    retry_delay stored_error retry_or_dead_letter queue_count get_tool_result save_tool_result
    create_approval resolve_approval approval_status
waiting_calls = refl

-- After the approval the restart runs, its effect is verified, and the workflow is completed.
finished_status : map (λ r. r.state.status) finished.workflows ≡ completed ∷ []
unfolding rounds required_state fail_workflow progress_fingerprint execute_tool
    resume_approved_action await_approval chaos_pause stop_loop use_tool_step complete_workflow
    ask_engine decide_step process heartbeat on_retryable on_permanent deliver run_once
    require_admin require_viewer required create_incident approve reject replay deterministic_decide
    is_production evaluate new_detector repeats_at try_lengths repeated_suffix stalled reason
    is_service_name is_environment is_dependency validate_service validate_dependency validate
    validate_and_decide action_id call_backend gateway_execute scenario_execute create_workflow
    get_workflow save_workflow record_event list_events enqueue claim acknowledge extend_lease
    retry_delay stored_error retry_or_dead_letter queue_count get_tool_result save_tool_result
    create_approval resolve_approval approval_status
finished_status = refl
