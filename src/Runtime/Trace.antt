-- ===== src/Runtime/Trace.antt =====
-- Every step of agent_resilience/tools.py and agent_resilience/runtime.py as a sequence of
-- operations of the store, of calls and of questions.
use agent_resilience_runtime.Prelude.{ℕ, String, Bool, Option, none, some}
use agent_resilience_runtime.Exec.{Result, ok, err, Failure}
use agent_resilience_runtime.Exec.Keeps.{Moves}
use agent_resilience_runtime.Models.{
  WorkflowState, ToolName, PendingAction, AgentDecision, Arguments, Action, use_tool, complete,
  fail,
}
use agent_resilience_runtime.Models.Values.{Json}
use agent_resilience_runtime.Policy.{PolicyDecision}
use agent_resilience_runtime.Loop.{LoopReason}
use agent_resilience_runtime.Store.{ApprovalStatus}
use agent_resilience_runtime.Store.Trace.{Reaches, asked-Reaches, reach_rules}
use agent_resilience_runtime.Tools.{validate, validate_and_decide, gateway_execute}
use agent_resilience_runtime.Tools.Gateway.{
  validated_or_raise, cached_or_call, call_backend, execute_allowed,
}
use agent_resilience_runtime.Runtime.{
  WorkflowRuntime, execute_tool, after_tool, process, resume_if, resume_approved_action,
  apply_policy, unless_looping, use_tool_step, act, use_chosen, after_decision, ask_engine,
  decide_step, resume_or_decide, required_state, state_or_raise, process_state, fail_workflow,
  await_approval, chaos_pause, stop_loop, complete_workflow,
}

state_or_raise-Reaches :
    (id : String) (o : Option WorkflowState) → Moves Reaches (state_or_raise id o)
state_or_raise-Reaches id none = search reach_rules
state_or_raise-Reaches id (some s) = search reach_rules

required_state-Reaches : (id : String) → Moves Reaches (required_state id)
unfolding required_state
required_state-Reaches id = search (reach_rules, state_or_raise-Reaches)

fail_workflow-Reaches :
    (s : WorkflowState) (why category : String) → Moves Reaches (fail_workflow s why category)
unfolding fail_workflow
fail_workflow-Reaches s why category = search reach_rules

validate_and_decide-Reaches :
    (t : ToolName) (a : Arguments) → Moves Reaches (validate_and_decide t a)
unfolding validate_and_decide
validate_and_decide-Reaches t a = checked (validate t a)
  where
    checked : (o : Option Arguments) → Moves Reaches (validated_or_raise t o)
    checked none = search reach_rules
    checked (some b) = search reach_rules

module _ (runtime : WorkflowRuntime) where
  open runtime use {digests, backend}

  call_backend-Reaches :
      (s : WorkflowState) (t : ToolName) (a : Arguments) (k : ℕ)
      → Moves Reaches (call_backend digests backend s t a k)
  unfolding call_backend
  call_backend-Reaches s t a k = search reach_rules

  cached_or_call-Reaches :
      (s : WorkflowState) (t : ToolName) (a : Arguments) (key : String) (cached : Option Json)
      → Moves Reaches (cached_or_call digests backend s t a key cached)
  cached_or_call-Reaches s t a key none = search (reach_rules, call_backend-Reaches)
  cached_or_call-Reaches s t a key (some v) = search reach_rules

  execute_allowed-Reaches :
      (s : WorkflowState) (t : ToolName) (checked : Arguments × PolicyDecision)
      → Moves Reaches (execute_allowed digests backend s t checked)
  execute_allowed-Reaches s t (a, policy) = search (reach_rules, cached_or_call-Reaches)

  gateway_execute-Reaches :
      (s : WorkflowState) (t : ToolName) (a : Arguments)
      → Moves Reaches (gateway_execute digests backend s t a)
  unfolding gateway_execute
  gateway_execute-Reaches s t a =
      search (reach_rules, validate_and_decide-Reaches, execute_allowed-Reaches)

  after_tool-Reaches :
      (s : WorkflowState) (t : ToolName) (r : Result (Json × Bool))
      → Moves Reaches (after_tool runtime s t r)
  after_tool-Reaches s t (ok (v, cached)) = search reach_rules
  after_tool-Reaches s t (err (Failure.permanent m)) = search (reach_rules, fail_workflow-Reaches)
  after_tool-Reaches s t (err e) = search reach_rules

  execute_tool-Reaches :
      (s : WorkflowState) (t : ToolName) (a : Arguments)
      → Moves Reaches (execute_tool runtime s t a)
  unfolding execute_tool
  execute_tool-Reaches s t a = search (reach_rules, gateway_execute-Reaches, after_tool-Reaches)

  resume_if-Reaches :
      (o : Option ApprovalStatus) (s : WorkflowState) (p : PendingAction)
      → Moves Reaches (resume_if runtime o s p)
  resume_if-Reaches (some ApprovalStatus.approved) s p = search (reach_rules, execute_tool-Reaches)
  resume_if-Reaches (some ApprovalStatus.pending) s p = search reach_rules
  resume_if-Reaches (some ApprovalStatus.rejected) s p = search reach_rules
  resume_if-Reaches none s p = search reach_rules

  resume_approved_action-Reaches :
      (s : WorkflowState) (p : PendingAction) → Moves Reaches (resume_approved_action runtime s p)
  unfolding resume_approved_action
  resume_approved_action-Reaches s p = search (reach_rules, resume_if-Reaches)

  await_approval-Reaches :
      (s : WorkflowState) (p : PendingAction) → Moves Reaches (await_approval runtime s p)
  unfolding await_approval
  await_approval-Reaches s p = search reach_rules

  chaos_pause-Reaches : (s : WorkflowState) (t : ToolName) → Moves Reaches (chaos_pause runtime s t)
  unfolding chaos_pause
  chaos_pause-Reaches s t = search reach_rules

  apply_policy-Reaches :
      (s : WorkflowState) (t : ToolName) (why : String) (a : Arguments) (policy : PolicyDecision)
      → Moves Reaches (apply_policy runtime s t why a policy)
  apply_policy-Reaches s t why a policy = search (
    reach_rules, fail_workflow-Reaches, await_approval-Reaches, chaos_pause-Reaches,
    execute_tool-Reaches,
  )

  stop_loop-Reaches : (s : WorkflowState) (why : String) → Moves Reaches (stop_loop runtime s why)
  unfolding stop_loop
  stop_loop-Reaches s why = search reach_rules

  unless_looping-Reaches :
      (o : Option LoopReason) (s : WorkflowState) (t : ToolName) (why : String) (a : Arguments)
      (policy : PolicyDecision)
      → Moves Reaches (unless_looping runtime o s t why a policy)
  unless_looping-Reaches none s t why a policy = search (reach_rules, apply_policy-Reaches)
  unless_looping-Reaches (some reason) s t why a policy = search (reach_rules, stop_loop-Reaches)

  use_tool_step-Reaches :
      (s : WorkflowState) (t : ToolName) (why : String) (a : Arguments)
      → Moves Reaches (use_tool_step runtime s t why a)
  unfolding use_tool_step
  use_tool_step-Reaches s t why a =
      search (reach_rules, validate_and_decide-Reaches, unless_looping-Reaches)

  complete_workflow-Reaches :
      (s : WorkflowState) (answer : Option String)
      → Moves Reaches (complete_workflow runtime s answer)
  unfolding complete_workflow
  complete_workflow-Reaches s answer = search reach_rules

  use_chosen-Reaches :
      (s : WorkflowState) (o : Option ToolName) (d : AgentDecision)
      → Moves Reaches (use_chosen runtime s o d)
  use_chosen-Reaches s none d = search reach_rules
  use_chosen-Reaches s (some t) d = search (reach_rules, use_tool_step-Reaches)

  act-Reaches :
      (k : Action) (s : WorkflowState) (d : AgentDecision) → Moves Reaches (act runtime k s d)
  act-Reaches complete s d = search (reach_rules, complete_workflow-Reaches)
  act-Reaches fail s d = search (reach_rules, fail_workflow-Reaches)
  act-Reaches use_tool s d = search (reach_rules, use_chosen-Reaches)

  ask_engine-Reaches : (s : WorkflowState) → Moves Reaches (ask_engine runtime s)
  unfolding ask_engine
  ask_engine-Reaches s = record { at = asked-Reaches }

  after_decision-Reaches :
      (s : WorkflowState) (r : Result AgentDecision) → Moves Reaches (after_decision runtime s r)
  after_decision-Reaches s (ok d) = search (reach_rules, act-Reaches)
  after_decision-Reaches s (err e) = search reach_rules

  decide_step-Reaches : (s : WorkflowState) → Moves Reaches (decide_step runtime s)
  unfolding decide_step
  decide_step-Reaches s = search (reach_rules, ask_engine-Reaches, after_decision-Reaches)

  resume_or_decide-Reaches :
      (o : Option PendingAction) (s : WorkflowState) → Moves Reaches (resume_or_decide runtime o s)
  resume_or_decide-Reaches none s = search (reach_rules, decide_step-Reaches)
  resume_or_decide-Reaches (some p) s = search (reach_rules, resume_approved_action-Reaches)

  process_state-Reaches : (s : WorkflowState) → Moves Reaches (process_state runtime s)
  process_state-Reaches s = search (reach_rules, resume_or_decide-Reaches)

  pub process-Reaches : (id : String) → Moves Reaches (process runtime id)
  unfolding process
  process-Reaches id = search (reach_rules, required_state-Reaches, process_state-Reaches)
