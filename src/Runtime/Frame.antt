-- ===== src/Runtime/Frame.antt =====
-- The steps of agent_resilience/runtime.py that write checkpoints, events and approvals, and nothing
-- else: each part of the world that reads none of these tables is as it was.
use agent_resilience_runtime.Prelude.{String, Option, none, some, Bool}
use agent_resilience_runtime.Exec.{Result, ok, err, Failure}
use agent_resilience_runtime.Exec.Keeps.{Moves}
use agent_resilience_runtime.Models.{WorkflowState, ToolName, PendingAction}
use agent_resilience_runtime.Models.Values.{Json}
use agent_resilience_runtime.Store.{World}
use agent_resilience_runtime.Store.Frame.{
  Same, SkipsWorkflows, SkipsEvents, SkipsApprovals, frame_rules,
}
use agent_resilience_runtime.Runtime.{
  WorkflowRuntime, required_state, state_or_raise, fail_workflow, after_tool, await_approval,
  chaos_pause, stop_loop, complete_workflow,
}

module _ {A : Type 0} (part : World → A) (kw : SkipsWorkflows part) (ke : SkipsEvents part) where
  state_or_raise-Same :
      (id : String) (o : Option WorkflowState) → Moves (Same part) (state_or_raise id o)
  state_or_raise-Same id none = search frame_rules
  state_or_raise-Same id (some s) = search frame_rules

  pub required_state-Same : (id : String) → Moves (Same part) (required_state id)
  unfolding required_state
  required_state-Same id = search (frame_rules, state_or_raise-Same)

  pub fail_workflow-Same :
      (s : WorkflowState) (why category : String) → Moves (Same part) (fail_workflow s why category)
  unfolding fail_workflow
  fail_workflow-Same s why category = search frame_rules

  module _ (runtime : WorkflowRuntime) where
    pub stop_loop-Same :
        (s : WorkflowState) (why : String) → Moves (Same part) (stop_loop runtime s why)
    unfolding stop_loop
    stop_loop-Same s why = search frame_rules

    pub complete_workflow-Same :
        (s : WorkflowState) (answer : Option String)
        → Moves (Same part) (complete_workflow runtime s answer)
    unfolding complete_workflow
    complete_workflow-Same s answer = search frame_rules

    pub after_tool-Same :
        (s : WorkflowState) (t : ToolName) (r : Result (Json × Bool))
        → Moves (Same part) (after_tool runtime s t r)
    after_tool-Same s t (ok (v, cached)) = search frame_rules
    after_tool-Same s t (err (Failure.permanent m)) = search (frame_rules, fail_workflow-Same)
    after_tool-Same s t (err e) = search frame_rules

    pub chaos_pause-Same :
        (s : WorkflowState) (t : ToolName) → Moves (Same part) (chaos_pause runtime s t)
    unfolding chaos_pause
    chaos_pause-Same s t = search frame_rules

module _ {A : Type 0} (part : World → A) (kw : SkipsWorkflows part) (ke : SkipsEvents part)
    (ka : SkipsApprovals part) (runtime : WorkflowRuntime) where
  pub await_approval-Same :
      (s : WorkflowState) (p : PendingAction) → Moves (Same part) (await_approval runtime s p)
  unfolding await_approval
  await_approval-Same s p = search frame_rules
