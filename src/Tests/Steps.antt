-- ===== src/Tests/Steps.antt =====
-- Instances of the theorems on agent_resilience/tools.py, agent_resilience/runtime.py,
-- agent_resilience/worker.py and agent_resilience/api.py, and on the system as a whole.
use agent_resilience_runtime.Prelude.{
  ◌==◌, ◌+◌, ◌≤◌, nat_eq, update_where, true, false, none, some, [], ◌∷◌, ◌≡◌, refl, arith,
}
use mathlib.Core.Option
use agent_resilience_runtime.Exec.{Result, ok, err, value_error}
use agent_resilience_runtime.Models.{
  status_eq, queued, WorkflowState, waiting_for_approval, dead_lettered, read_alert,
  restart_service, high, PendingAction, ArgValue, Arguments,
}
use agent_resilience_runtime.Store.{World, QueueRow, QueueStatus, ApprovalStatus}
use agent_resilience_runtime.Store.Calls.{AtMostOne}
use agent_resilience_runtime.Store.Queue.Claim.{row_of}
use agent_resilience_runtime.Store.Trace.{Reaches-IsPreorder}
use agent_resilience_runtime.Store.Trace.Sound.{IsSound}
use agent_resilience_runtime.Tools.{gateway_execute}
use agent_resilience_runtime.Tools.Replay.{gateway_execute-replays}
use agent_resilience_runtime.Runtime.{process}
use agent_resilience_runtime.Runtime.Gate.{IsGated, stored_state, process-gate}
use agent_resilience_runtime.Worker.{on_retryable, run_once}
use agent_resilience_runtime.Worker.Settle.{IsSettled, run_once-settles}
use agent_resilience_runtime.Worker.Next.{run_once-goes_on}
use agent_resilience_runtime.Api.Granted.{IsGranted, approve-IsGranted}
use agent_resilience_runtime.Worker.DeadLetter.{on_retryable-dead_letters}
use agent_resilience_runtime.Api.{create_incident, approve, reject, replay}
use agent_resilience_runtime.Api.Trace.{api-Reaches}
use agent_resilience_runtime.Store.Queue.Single.{IsSingle, active_count}
use agent_resilience_runtime.Api.Race.{approve-lost}
use agent_resilience_runtime.Api.Stuck.{waiting-IsStuck}
use agent_resilience_runtime.System.{
  IsReachable, IsConsistent, Reaches-IsReachable, reachable-IsConsistent,
}
use agent_resilience_runtime.Runtime.{
  required_state, fail_workflow, progress_fingerprint, execute_tool, resume_approved_action,
  await_approval, chaos_pause, stop_loop, use_tool_step, complete_workflow, ask_engine, decide_step,
}
use agent_resilience_runtime.Worker.{heartbeat, on_permanent, deliver}
use agent_resilience_runtime.Api.{require_admin, require_viewer, required}
use agent_resilience_runtime.Engine.{deterministic_decide}
use agent_resilience_runtime.Policy.{is_production, evaluate}
use agent_resilience_runtime.Loop.{
  new_detector, repeats_at, try_lengths, repeated_suffix, stalled, reason,
}
use agent_resilience_runtime.Tools.Validation.{
  is_service_name, is_environment, is_dependency, validate_service, validate_dependency, validate,
}
use agent_resilience_runtime.Tools.Gateway.{validate_and_decide, action_id, call_backend}
use agent_resilience_runtime.Tools.Scenario.{scenario_execute}
use agent_resilience_runtime.Store.Checkpoints.{create_workflow, get_workflow, save_workflow}
use agent_resilience_runtime.Store.Events.{record_event, list_events}
use agent_resilience_runtime.Store.Queue.{
  enqueue, claim, acknowledge, extend_lease, retry_delay, stored_error, retry_or_dead_letter,
  queue_count,
}
use agent_resilience_runtime.Store.Results.{get_tool_result, save_tool_result}
use agent_resilience_runtime.Store.Approvals.{create_approval, resolve_approval, approval_status}
use agent_resilience_runtime.Tests.Fixture.{
  sizes, scenario, runtime, config, empty_world, created, approved,
}
use agent_resilience_runtime.Tests.Stores.{job, stored, stored-IsKeyed, first_delivery, spent, row}

process-gate_example :
    AtMostOne (IsGated runtime "i1" approved) approved (process runtime "i1" approved).1
process-gate_example = process-gate runtime "i1" approved

abbrev request : Arguments
request = ("service", ArgValue.text "checkout") ∷ ("environment", ArgValue.text "staging") ∷ []

-- The world after the tool has run once.
abbrev executed : World
executed = (gateway_execute sizes runtime.backend job read_alert request stored).1

gateway_execute-replays_example :
    gateway_execute sizes runtime.backend job read_alert request executed
    ≡ (ok (scenario.alert, true), executed)
unfolding gateway_execute validate_and_decide call_backend validate is_service_name is_environment
    evaluate get_tool_result save_tool_result scenario_execute
gateway_execute-replays_example =
    gateway_execute-replays sizes runtime.backend job job read_alert request scenario.alert false
      stored executed executed [] refl refl refl

created-IsReachable : IsReachable created
created-IsReachable =
    Reaches-IsReachable (create_incident "i1" "find the fault" "checkout-pool-exhaustion" 5)
      empty_world
      (api-Reaches 1 "i1" "find the fault" "checkout-pool-exhaustion" "oncall" "" none 5).0
      (record { start = 1000; reached = Reaches-IsPreorder.same empty_world })

reachable-IsConsistent_example : IsConsistent created
reachable-IsConsistent_example = reachable-IsConsistent created created-IsReachable

abbrev after_round : World
after_round = (run_once runtime config "w1" stored).1

run_once-settles_example : IsSettled 1 after_round
unfolding required_state fail_workflow progress_fingerprint execute_tool resume_approved_action
    await_approval chaos_pause stop_loop use_tool_step complete_workflow ask_engine decide_step
    process heartbeat on_retryable on_permanent deliver run_once require_admin require_viewer
    required create_incident approve reject replay deterministic_decide is_production evaluate
    new_detector repeats_at try_lengths repeated_suffix stalled reason is_service_name
    is_environment is_dependency validate_service validate_dependency validate validate_and_decide
    action_id call_backend gateway_execute scenario_execute create_workflow get_workflow
    save_workflow record_event list_events enqueue claim acknowledge extend_lease retry_delay
    stored_error retry_or_dead_letter queue_count get_tool_result save_tool_result create_approval
    resolve_approval approval_status
run_once-settles_example =
    run_once-settles config runtime "w1" stored _ after_round first_delivery true refl refl

-- The round's claim, and the step of its workflow.
abbrev leased : World
leased = (claim "w1" config.queue_lease_seconds stored).1

abbrev stepped : World
stepped = (process runtime "i1" leased).1

abbrev state_or : WorkflowState → Result WorkflowState → WorkflowState
state_or s (ok r) = r
state_or s (err e) = s

abbrev stepped_state : WorkflowState
stepped_state = state_or job (process runtime "i1" leased).0

abbrev leased_row : QueueRow
leased_row = record row {
  status = QueueStatus.processing;
  attempts = 1;
  worker_id = some "w1";
  lease_until = some (1000 + config.queue_lease_seconds);
}

run_once-goes_on_example :
    (row_of 1 after_round
      ≡ some (record leased_row {
        status = QueueStatus.completed;
        lease_until = none;
        updated_at = stepped.now;
      }))
    × ((stepped_state.status == queued) ≡ true → 1 ≤ active_count "i1" after_round)
    × ((stepped_state.status == queued) ≡ false
        → after_round ≡ record stepped {
          queue =
              update_where
                (λ r. r.id == 1)
                (λ r. record r {
                  status = QueueStatus.completed;
                  lease_until = none;
                  updated_at = stepped.now;
                })
                stepped.queue;
        })
unfolding required_state fail_workflow progress_fingerprint execute_tool resume_approved_action
    await_approval chaos_pause stop_loop use_tool_step complete_workflow ask_engine decide_step
    process heartbeat on_retryable on_permanent deliver run_once require_admin require_viewer
    required create_incident approve reject replay deterministic_decide is_production evaluate
    new_detector repeats_at try_lengths repeated_suffix stalled reason is_service_name
    is_environment is_dependency validate_service validate_dependency validate validate_and_decide
    action_id call_backend gateway_execute scenario_execute create_workflow get_workflow
    save_workflow record_event list_events enqueue claim acknowledge extend_lease retry_delay
    stored_error retry_or_dead_letter queue_count get_tool_result save_tool_result create_approval
    resolve_approval approval_status
run_once-goes_on_example =
    run_once-goes_on config runtime "w1" stored leased stepped after_round first_delivery
      stepped_state leased_row true refl refl refl refl

stored-IsSound : IsSound stored
stored-IsSound = record {
  keyed = stored-IsKeyed;
  agrees = (
    record { same_task = refl; same_version = refl },
    (record { same_task = refl; same_version = refl }, tt),
  );
}

on_retryable-dead_letters_example :
    let w' = (on_retryable config spent "timeout" stored).1 in
    (Option.map (λ q. q.status) (row_of 1 w') ≡ some QueueStatus.dead)
    × (stored_state "i1" w'
        ≡ some (record job {
          status = dead_lettered;
          last_error = some "timeout";
          version = 1;
          updated_at = 1000;
        }))
on_retryable-dead_letters_example =
    on_retryable-dead_letters config spent "timeout" job row stored stored-IsSound refl refl refl
      (omega arith) (omega arith)

abbrev action : PendingAction
action = record {
  action_id = "i1:restart";
  tool = restart_service;
  arguments = request;
  risk = high;
  rationale = "again";
  created_at = 1000;
}

-- The workflow waits for an action that has been approved and executed before.
abbrev stopped : WorkflowState
stopped = record job { status = waiting_for_approval; pending_action = some action }

abbrev stuck : World
stuck = record stored {
  workflows = record { task_id = "i1"; state = stopped; version = 0; updated_at = 1000 } ∷ [];
  approvals =
      record {
        task_id = "i1";
        action_id = "i1:restart";
        status = ApprovalStatus.approved;
        actor = some "oncall";
        reason = none;
        created_at = 1000;
        resolved_at = some 1000;
      }
      ∷ [];
}

waiting-IsStuck_example :
    (approve "i1" "oncall" none 5 stuck ≡ (err (value_error "approval is not pending"), stuck))
    × (reject "i1" "oncall" none stuck ≡ (err (value_error "approval is not pending"), stuck))
    × (process runtime "i1" stuck ≡ (ok stopped, stuck))
waiting-IsStuck_example =
    waiting-IsStuck runtime "i1" "oncall" none 5 stopped action stuck refl refl refl refl

-- The worker that has asked for the approval still holds the delivery.
abbrev gated : World
gated = record stuck {
  queue = record row { status = QueueStatus.processing; worker_id = some "w1" } ∷ [];
  approvals =
      record {
        task_id = "i1";
        action_id = "i1:restart";
        status = ApprovalStatus.pending;
        actor = none;
        reason = none;
        created_at = 1000;
        resolved_at = none;
      }
      ∷ [];
}

gated-IsSingle : IsSingle gated
gated-IsSingle = record { at_most_one = λ id. ground arith }

approve-lost_example :
    active_count "i1" (acknowledge 1 (approve "i1" "oncall" none 5 gated).1).1 ≡ 0
approve-lost_example =
    approve-lost "i1" "oncall" none 5
      (record row { status = QueueStatus.processing; worker_id = some "w1" }) gated gated-IsSingle
      refl

gated-IsSound : IsSound gated
gated-IsSound = record {
  keyed = record { unique = λ id. ground arith };
  agrees = (record { same_task = refl; same_version = refl }, tt);
}

-- The approval's world and state.
abbrev granted : World
granted = (approve "i1" "oncall" none 5 gated).1

abbrev granted_state : WorkflowState
granted_state = record stopped { status = queued; version = 1; updated_at = 1000 }

approve-IsGranted_example : IsGranted "i1" "oncall" none gated granted granted_state
unfolding approve required get_workflow resolve_approval save_workflow record_event enqueue
approve-IsGranted_example =
    approve-IsGranted "i1" "oncall" none 5 gated granted granted_state gated-IsSound refl
