-- ===== src/Runtime.antt =====
-- agent_resilience/runtime.py: `WorkflowRuntime.process`, one bounded action of a workflow. The
-- metrics that it counts (metrics.py) are left out: `emit_metric` swallows its own failures and no
-- code reads a counter.
pub mod Frame
pub mod Gate
pub mod Ends
pub mod Rounds
pub mod Trace
use Prim.Native.String.{◌++◌ as concat, slice}
use Prim.Native.Nat.{◌%◌}
use agent_resilience_runtime.Prelude.{
  ℕ, zero, suc, ◌+◌, ◌/◌, String, Bool, not, Option, none, some, List, [], ◌∷◌, ◌++◌, ◌==◌, ◌&&◌,
  ◌||◌, ltb, string_eq, nat_eq, if◌then◌else◌, option_beq, length, last_n,
}
use agent_resilience_runtime.Exec.{
  Failure, Result, ok, err, permanent, other, is_retryable, message, pure, raise, gets, attempt,
  ◌>>=◌, ◌>>◌,
}
use agent_resilience_runtime.Models.{
  queued, running, waiting_for_approval, completed, failed, loop_stopped, ToolName, value, tool_eq,
  status_eq, Arguments, Evidence, PendingAction, WorkflowState, terminal, insert, contains,
  AgentDecision, Action, use_tool, complete, fail, truthy, model_dump,
}
use agent_resilience_runtime.Models.Values.{Json}
use agent_resilience_runtime.Loop.{
  LoopDetector, LoopReason, budget_exceeded, repeated_sequence, no_progress, reason,
}
use agent_resilience_runtime.Policy.{PolicyDecision}
use agent_resilience_runtime.Engine.{DecisionEngine}
use agent_resilience_runtime.Store.{
  EventBody, Run, ApprovalStatus, get_workflow, save_workflow, record_event, approval_status,
  create_approval,
}
use agent_resilience_runtime.Tools.{
  Digests, ToolBackend, validate_and_decide, action_id, gateway_execute,
}

-- The constructor's arguments; durations are microseconds.
pub record WorkflowRuntime : Type 0 where
  pub digests : Digests
  pub engine : DecisionEngine
  pub backend : ToolBackend
  pub loop_detector : LoopDetector
  pub chaos_pause_tool : Option String
  pub chaos_pause_after_steps : Option ℕ
  pub chaos_pause_seconds : ℕ

abbrev digit : ℕ → String
digit d =
    if d == 0
    then "0"
    else if d == 1
    then "1"
    else if d == 2
    then "2"
    else if d == 3
    then "3"
    else if d == 4
    then "4"
    else if d == 5
    then "5"
    else if d == 6
    then "6"
    else if d == 7
    then "7"
    else if d == 8
    then "8"
    else "9"

-- The decimal digits of a number, on enough fuel.
abbrev digits : ℕ → ℕ → String
digits zero n = ""
digits (suc f) n =
    let high = digits f (n / 10) in if ltb n 10 then digit n else concat high (digit (n % 10))

abbrev pub reason_text : LoopReason → String
reason_text (budget_exceeded n) =
    concat "tool-call budget exceeded (" (concat (digits (n + 1) n) ")")
reason_text repeated_sequence = "repeated tool sequence detected"
reason_text no_progress = "agent repeated actions without changing workflow evidence"

-- `_required_state`
abbrev pub state_or_raise : String → Option WorkflowState → Run WorkflowState
state_or_raise id none = raise (permanent (concat "unknown workflow: " id))
state_or_raise id (some s) = pure s

unfoldable pub required_state : String → Run WorkflowState
required_state id = do found ← get_workflow id; state_or_raise id found

abbrev pub failed_state : WorkflowState → String → WorkflowState
failed_state s why = record s { status = failed; last_error = some why; current_step = none }

-- `_fail`
unfoldable pub fail_workflow : WorkflowState → String → String → Run WorkflowState
fail_workflow state why category = do
  s ← save_workflow (failed_state state why) state.version
  record_event s.task_id (EventBody.workflow_failed category why)
  pure s

-- The state after a retryable failure of the engine or of a tool.
abbrev pub retried : WorkflowState → String → WorkflowState
retried s why = record s { retries = s.retries + 1; last_error = some why; status = queued }

abbrev pub add_step : ToolName → List ToolName → List ToolName
add_step t steps = if contains t steps then steps else steps ++ t ∷ []

abbrev pub started : WorkflowState → WorkflowState
started s = record s { status = running; last_error = none }

module _ (runtime : WorkflowRuntime) where
  open runtime use {
    digests, engine, backend, loop_detector, chaos_pause_tool, chaos_pause_after_steps,
    chaos_pause_seconds,
  }

  -- `_progress_fingerprint`
  unfoldable pub progress_fingerprint : Evidence → String
  progress_fingerprint e = slice (digests.evidence_hash e) 0 16

  -- The state after a tool has returned `result`.
  abbrev pub completed_tool : WorkflowState → ToolName → Json → WorkflowState
  completed_tool s t result =
      let evidence = insert t result s.evidence in
      record s {
        tool_calls = s.tool_calls + 1;
        evidence = evidence;
        completed_steps = add_step t s.completed_steps;
        pending_action = none;
        current_step = none;
        last_error = none;
        status = queued;
        progress_history = s.progress_history ++ progress_fingerprint evidence ∷ [];
      }

  -- The `except` clauses of `_execute_tool`, and what follows them.
  abbrev pub after_tool : WorkflowState → ToolName → Result (Json × Bool) → Run WorkflowState
  after_tool s t (ok (result, cached)) = do
    saved ← save_workflow (completed_tool s t result) s.version
    record_event saved.task_id (EventBody.tool_completed t cached result)
    pure saved
  after_tool s t (err (Failure.permanent m)) = fail_workflow s m "tool"
  after_tool s t (err e) =
      if is_retryable e
      then (do
        save_workflow (retried s (message e)) s.version
        record_event s.task_id (EventBody.tool_retryable_failure t (message e))
        raise e)
      else raise e

  -- `_execute_tool`
  unfoldable pub execute_tool : WorkflowState → ToolName → Arguments → Run WorkflowState
  execute_tool s t a = do
    outcome ← attempt (gateway_execute digests backend s t a)
    after_tool s t outcome

  abbrev pub resume_if : Option ApprovalStatus → WorkflowState → PendingAction → Run WorkflowState
  resume_if (some ApprovalStatus.approved) s p = do
    record_event s.task_id (EventBody.approved_action_resumed p.action_id)
    execute_tool s p.tool p.arguments
  resume_if _ s p = pure (record s { status = waiting_for_approval })

  -- `_resume_approved_action`
  unfoldable pub resume_approved_action : WorkflowState → PendingAction → Run WorkflowState
  resume_approved_action s p = do
    approval ← approval_status s.task_id p.action_id
    resume_if approval s p

  abbrev pub waiting_state : WorkflowState → PendingAction → WorkflowState
  waiting_state s p = record s { pending_action = some p; status = waiting_for_approval }

  -- The approval gate of `process`.
  unfoldable pub await_approval : WorkflowState → PendingAction → Run WorkflowState
  await_approval s p = do
    saved ← save_workflow (waiting_state s p) s.version
    create_approval s.task_id p.action_id
    record_event s.task_id (EventBody.approval_required p)
    pure saved

  abbrev pub pauses : WorkflowState → ToolName → Bool
  pauses s t =
      not (chaos_pause_seconds == 0)
      && (option_beq (some (value t)) chaos_pause_tool
          || option_beq chaos_pause_after_steps (some (length s.completed_steps)))

  unfoldable pub chaos_pause : WorkflowState → ToolName → Run (Unit {0})
  chaos_pause s t =
      if pauses s t
      then record_event s.task_id (EventBody.chaos_pause_started t chaos_pause_seconds)
      else pure tt

  -- `process` from the policy's answer on.
  abbrev pub apply_policy :
      WorkflowState → ToolName → String → Arguments → PolicyDecision → Run WorkflowState
  apply_policy s t rationale a policy =
      if not policy.allowed
      then (do
        record_event s.task_id (EventBody.policy_denied t policy.reason)
        fail_workflow s policy.reason "policy")
      else if policy.approval_required
      then (do
        now ← gets (λ w. w.now)
        await_approval s (record {
          action_id = action_id digests s t a;
          tool = t;
          arguments = a;
          risk = policy.risk;
          rationale = rationale;
          created_at = now;
        }))
      else (do chaos_pause s t; execute_tool s t a)

  -- The state with the requested tool in its histories.
  abbrev pub requested : WorkflowState → ToolName → WorkflowState
  requested s t = record s {
    current_step = some t;
    tool_history = s.tool_history ++ t ∷ [];
    progress_history = s.progress_history ++ progress_fingerprint s.evidence ∷ [];
  }

  unfoldable pub stop_loop : WorkflowState → String → Run WorkflowState
  stop_loop s why = do
    saved ← save_workflow (record s { status = loop_stopped; last_error = some why }) s.version
    record_event s.task_id (EventBody.loop_detected why (last_n 12 saved.tool_history))
    pure saved

  abbrev pub unless_looping :
      Option LoopReason
      → WorkflowState
      → ToolName
      → String
      → Arguments
      → PolicyDecision
      → Run WorkflowState
  unless_looping (some why) s t rationale a policy = stop_loop s (reason_text why)
  unless_looping none s t rationale a policy = do
    saved ← save_workflow s s.version
    apply_policy saved t rationale a policy

  -- `process` from the choice of a tool on.
  unfoldable pub use_tool_step : WorkflowState → ToolName → String → Arguments → Run WorkflowState
  use_tool_step s t rationale a = do
    checked ← validate_and_decide t a
    unless_looping
        (reason loop_detector (requested s t).tool_history (requested s t).progress_history)
        (requested s t) t rationale checked.0 checked.1

  unfoldable pub complete_workflow : WorkflowState → Option String → Run WorkflowState
  complete_workflow s answer = do
    saved ←
        save_workflow (record s { status = completed; final_answer = answer; current_step = none })
          s.version
    record_event s.task_id (EventBody.workflow_completed answer)
    pure saved

  abbrev pub use_chosen : WorkflowState → Option ToolName → AgentDecision → Run WorkflowState
  use_chosen s none d = raise (other "AssertionError")
  use_chosen s (some t) d = use_tool_step s t d.rationale (model_dump d.arguments)

  abbrev pub act : Action → WorkflowState → AgentDecision → Run WorkflowState
  act complete s d = complete_workflow s d.final_answer
  act fail s d = fail_workflow s d.rationale "agent_decision"
  act use_tool s d = use_chosen s d.tool d

  -- `new or old`, for a field of the decision.
  abbrev pub or_else : Option String → Option String → Option String
  or_else new old = if truthy new then new else old

  abbrev pub decided : WorkflowState → AgentDecision → ℕ × ℕ → WorkflowState
  decided s d (input, output) = record s {
    model_calls = s.model_calls + 1;
    input_tokens = s.input_tokens + input;
    output_tokens = s.output_tokens + output;
    diagnosis = or_else d.diagnosis s.diagnosis;
    remediation = or_else d.remediation s.remediation;
  }

  -- One question to the engine, which is counted.
  unfoldable pub ask_engine : WorkflowState → Run AgentDecision
  ask_engine s w = (engine.decide w.asks s, record w { asks = w.asks + 1 })

  -- The `except` clauses around the decision, and what follows them.
  abbrev pub after_decision : WorkflowState → Result AgentDecision → Run WorkflowState
  after_decision s (ok d) = do
    usage ← gets (λ w. engine.take_usage w.asks)
    record_event s.task_id (EventBody.agent_decision d)
    act d.action (decided s d usage) d
  after_decision s (err e) =
      if is_retryable e
      then (do
        saved ← save_workflow (retried s (message e)) s.version
        record_event s.task_id (EventBody.model_retryable_failure (message e))
        raise e)
      else raise e

  unfoldable pub decide_step : WorkflowState → Run WorkflowState
  decide_step state = do
    s ← save_workflow (started state) state.version
    record_event s.task_id (EventBody.agent_decision_started (s.model_calls + 1))
    outcome ← attempt (ask_engine s)
    after_decision s outcome

  abbrev pub resume_or_decide : Option PendingAction → WorkflowState → Run WorkflowState
  resume_or_decide (some p) s = resume_approved_action s p
  resume_or_decide none s = decide_step s

  abbrev pub process_state : WorkflowState → Run WorkflowState
  process_state s =
      if terminal s || s.status == waiting_for_approval
      then pure s
      else resume_or_decide s.pending_action s

  -- `WorkflowRuntime.process`
  unfoldable pub process : String → Run WorkflowState
  process id = do s ← required_state id; process_state s
