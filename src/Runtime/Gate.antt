-- ===== src/Runtime/Gate.antt =====
-- What reaches the tool backend in one step of agent_resilience/runtime.py: how many calls, and what
-- the policy and a human have said of them.
use agent_resilience_runtime.Prelude.{
  ◌+◌, String, Option, none, some, true, false, ◌≡◌, ◌⊎◌, inl, inr, refl, sym, ◌∙◌, ◌==◌, ◌||◌,
  Bool-cases, Option-cases, some_inj,
}
use mathlib.Core.Option
use agent_resilience_runtime.Exec.{Result, ok, err, continue, attempt, gets}
use agent_resilience_runtime.Exec.Keeps.{Moves}
use agent_resilience_runtime.Models.{
  WorkflowState, ToolName, PendingAction, Arguments, AgentDecision, Action, use_tool, complete,
  fail, waiting_for_approval, status_eq, terminal, model_dump,
}
use agent_resilience_runtime.Policy.{evaluate}
use agent_resilience_runtime.Loop.{LoopReason}
use agent_resilience_runtime.Store.{
  World, BackendCall, Run, ApprovalStatus, approval_row, approval_status, workflow_row,
  get_workflow, save_workflow, record_event, EventBody,
}
use agent_resilience_runtime.Store.Frame.{Same, frame_rules}
use agent_resilience_runtime.Store.Calls.{
  calls, AtMostOne, AtMostOne-attempt, AtMostOne-after, AtMostOne-before, AtMostOne-Same,
  calls-skip_workflows, calls-skip_events, calls-skip_approvals,
}
use agent_resilience_runtime.Tools.{validate, validate_and_decide}
use agent_resilience_runtime.Tools.Calls.{IsChecked, gateway_execute-AtMostOne}
use agent_resilience_runtime.Tools.Validation.Laws.{validate_idem}
use agent_resilience_runtime.Runtime.{
  WorkflowRuntime, execute_tool, process, resume_if, resume_approved_action, apply_policy,
  unless_looping, use_tool_step, act, use_chosen, after_decision, ask_engine, decide_step, started,
  resume_or_decide, required_state, state_or_raise, process_state, decided,
}
use agent_resilience_runtime.Runtime.Frame.{
  after_tool-Same, chaos_pause-Same, stop_loop-Same, complete_workflow-Same, fail_workflow-Same,
  await_approval-Same,
}

weaken :
    {A : Type 0} {P Q : BackendCall → Type 0} (m : Run A)
    → ((c : BackendCall) → P c → Q c)
    → Moves (AtMostOne P) m
    → Moves (AtMostOne Q) m
weaken m h k = record {
  at = λ w. elim (k.at w) [ inl same ↦ inl same | inr (c, one, p) ↦ inr (c, one, h c p) ];
}

abbrev pub stored_state : String → World → Option WorkflowState
stored_state id w = Option.map (λ r. r.state) (workflow_row id w)

abbrev pub stored_approval : String → String → World → Option ApprovalStatus
stored_approval id action w = Option.map (λ r. r.status) (approval_row id action w)

ruleset same_calls = (frame_rules, calls-skip_workflows, calls-skip_events, calls-skip_approvals)

module _ (runtime : WorkflowRuntime) where
  execute_tool-AtMostOne :
      (s : WorkflowState) (t : ToolName) (a : Arguments)
      → Moves (AtMostOne (IsChecked s t a)) (execute_tool runtime s t a)
  unfolding execute_tool
  execute_tool-AtMostOne s t a =
      AtMostOne-before _ _ _
        (AtMostOne-attempt _ _ (gateway_execute-AtMostOne runtime.digests runtime.backend s t a))
        (after_tool-Same calls calls-skip_workflows calls-skip_events runtime s t)

  -- A call that needs no approval: its arguments are validated, and the policy lets the tool run by
  -- itself.
  abbrev IsUnattended : BackendCall → Type 0
  IsUnattended c =
      (validate c.tool c.arguments ≡ some c.arguments)
      × ((evaluate c.tool c.arguments).allowed ≡ true)
      × ((evaluate c.tool c.arguments).approval_required ≡ false)

  unattended :
      (s : WorkflowState) (t : ToolName) (a b : Arguments)
      → validate t a ≡ some b
      → (evaluate t b).approval_required ≡ false
      → (c : BackendCall) → IsChecked s t b c
      → IsUnattended c
  unattended s t a b good free c k =
      let again = (validate_idem t a good).1 in
      let same : b ≡ c.arguments = some_inj (sym again ∙ k.validated) in
      (rw (k.of_tool, ← same) again, rw k.of_tool k.allowed, rw (k.of_tool, ← same) free)

  -- From the policy's answer on, only a tool that needs no approval is called.
  apply_policy-AtMostOne :
      (s : WorkflowState) (t : ToolName) (why : String) (a b : Arguments)
      → validate t a ≡ some b
      → Moves (AtMostOne IsUnattended) (apply_policy runtime s t why b (evaluate t b))
  apply_policy-AtMostOne s t why a b good = elim (Bool-cases (evaluate t b).allowed) [
    | inr denied ↦ rw denied (AtMostOne-Same _ _ (search (same_calls, fail_workflow-Same)))
    | inl allowed ↦ elim (Bool-cases (evaluate t b).approval_required) [
      | inl gated ↦
          rw (allowed, gated) (AtMostOne-Same _ _ (search (same_calls, await_approval-Same)))
      | inr free ↦
          rw (allowed, free)
            (AtMostOne-after _ _ _
              (chaos_pause-Same calls calls-skip_workflows calls-skip_events runtime s t)
              (λ _.
                weaken (execute_tool runtime s t b) (unattended s t a b good free)
                  (execute_tool-AtMostOne s t b)))
    ]
  ]

  unless_looping-AtMostOne :
      (stop : Option LoopReason) (s : WorkflowState) (t : ToolName) (why : String) (a b : Arguments)
      → validate t a ≡ some b
      → Moves (AtMostOne IsUnattended) (unless_looping runtime stop s t why b (evaluate t b))
  unless_looping-AtMostOne (some reason) s t why a b good =
      AtMostOne-Same _ _ (search (same_calls, stop_loop-Same))
  unless_looping-AtMostOne none s t why a b good =
      AtMostOne-after _ (save_workflow s s.version) _ (search same_calls)
        (λ saved. apply_policy-AtMostOne saved t why a b good)

  use_tool_step-AtMostOne :
      (s : WorkflowState) (t : ToolName) (why : String) (a : Arguments)
      → Moves (AtMostOne IsUnattended) (use_tool_step runtime s t why a)
  unfolding use_tool_step validate_and_decide
  use_tool_step-AtMostOne s t why a = elim (Option-cases (validate t a)) [
    | inl bad ↦ rw bad (AtMostOne-Same _ _ (record { at = λ w. refl }))
    | inr (b, good) ↦ rw good (record { at = (unless_looping-AtMostOne _ _ t why a b good).at })
  ]

  act-AtMostOne :
      (k : Action) (s : WorkflowState) (d : AgentDecision)
      → Moves (AtMostOne IsUnattended) (act runtime k s d)
  act-AtMostOne complete s d = AtMostOne-Same _ _ (search (same_calls, complete_workflow-Same))
  act-AtMostOne fail s d = AtMostOne-Same _ _ (search (same_calls, fail_workflow-Same))
  act-AtMostOne use_tool s d = chosen d.tool
    where
      chosen : (o : Option ToolName) → Moves (AtMostOne IsUnattended) (use_chosen runtime s o d)
      chosen none = AtMostOne-Same _ _ (record { at = λ w. refl })
      chosen (some t) = use_tool_step-AtMostOne s t d.rationale (model_dump d.arguments)

  after_decision-AtMostOne :
      (s : WorkflowState) (r : Result AgentDecision)
      → Moves (AtMostOne IsUnattended) (after_decision runtime s r)
  after_decision-AtMostOne s (ok d) =
      AtMostOne-after _ (gets (λ w. runtime.engine.take_usage w.asks)) _ (search same_calls)
        (λ usage.
          AtMostOne-after _ (record_event s.task_id (EventBody.agent_decision d)) _
            (search same_calls) (λ _. act-AtMostOne d.action (decided runtime s d usage) d))
  after_decision-AtMostOne s (err e) = AtMostOne-Same _ _ (search same_calls)

  ask_engine-Same : (s : WorkflowState) → Moves (Same calls) (ask_engine runtime s)
  unfolding ask_engine
  ask_engine-Same s = record { at = λ w. refl }

  decide_step-AtMostOne :
      (s : WorkflowState) → Moves (AtMostOne IsUnattended) (decide_step runtime s)
  unfolding decide_step
  decide_step-AtMostOne s =
      AtMostOne-after _ (save_workflow (started s) s.version) _ (search same_calls) (λ saved.
        AtMostOne-after _
          (record_event saved.task_id (EventBody.agent_decision_started (saved.model_calls + 1))) _
          (search same_calls)
          (λ _.
            AtMostOne-after _ (attempt (ask_engine runtime saved)) _
              (search (same_calls, ask_engine-Same)) (λ r. after_decision-AtMostOne saved r)))

  -- The call is the workflow's pending action, and the approval of that action is granted.
  pub record IsApproved (id : String) (w : World) (c : BackendCall) : Type 0 where
    pub state : WorkflowState
    pub stored : stored_state id w ≡ some state
    pub pending : PendingAction
    pub has_pending : state.pending_action ≡ some pending
    pub checked : IsChecked state pending.tool pending.arguments c
    pub approved : stored_approval state.task_id pending.action_id w ≡ some ApprovalStatus.approved

  resume_if-AtMostOne :
      (o : Option ApprovalStatus) (s : WorkflowState) (p : PendingAction) (w : World)
      → AtMostOne
          (λ c. IsChecked s p.tool p.arguments c × (o ≡ some ApprovalStatus.approved))
          w
          (resume_if runtime o s p w).1
  resume_if-AtMostOne (some ApprovalStatus.approved) s p w =
      (AtMostOne-after _ (record_event s.task_id (EventBody.approved_action_resumed p.action_id)) _
          (search same_calls)
          (λ _.
            weaken (execute_tool runtime s p.tool p.arguments) (λ c k. (k, refl))
              (execute_tool-AtMostOne s p.tool p.arguments))).at
        w
  resume_if-AtMostOne (some ApprovalStatus.pending) s p w = inl refl
  resume_if-AtMostOne (some ApprovalStatus.rejected) s p w = inl refl
  resume_if-AtMostOne none s p w = inl refl

  resume-AtMostOne :
      (s : WorkflowState) (p : PendingAction) (w : World)
      → AtMostOne
          (λ c.
            IsChecked s p.tool p.arguments c
            × (stored_approval s.task_id p.action_id w ≡ some ApprovalStatus.approved))
          w
          (resume_approved_action runtime s p w).1
  unfolding resume_approved_action approval_status
  resume-AtMostOne s p w = resume_if-AtMostOne (stored_approval s.task_id p.action_id w) s p w

  -- What a call of one step has met: the policy lets the tool run by itself, or a human has
  -- approved the workflow's pending action.
  abbrev pub IsGated : String → World → BackendCall → Type 0
  IsGated id w c = IsUnattended c ⊎ IsApproved id w c

  pass :
      {P Q : BackendCall → Type 0} (w w' : World)
      → ((c : BackendCall) → P c → Q c)
      → AtMostOne P w w'
      → AtMostOne Q w w'
  pass w w' h (inl same) = inl same
  pass w w' h (inr (c, one, p)) = inr (c, one, h c p)

  resume_or_decide-gate :
      (id : String) (o : Option PendingAction) (s : WorkflowState) (w : World)
      → stored_state id w ≡ some s
      → s.pending_action ≡ o
      → AtMostOne (IsGated id w) w (resume_or_decide runtime o s w).1
  resume_or_decide-gate id none s w stored shape =
      pass w (decide_step runtime s w).1 (λ c u. inl u) ((decide_step-AtMostOne s).at w)
  resume_or_decide-gate id (some p) s w stored shape =
      pass w (resume_approved_action runtime s p w).1
        (λ c (k, approved). inr (record {
          state = s;
          stored = stored;
          pending = p;
          has_pending = shape;
          checked = k;
          approved = approved;
        }))
        (resume-AtMostOne s p w)

  process_state-gate :
      (id : String) (o : Option WorkflowState) (w : World)
      → stored_state id w ≡ o
      → AtMostOne
          (IsGated id w)
          w
          (continue (state_or_raise id o w).0 (process_state runtime) (state_or_raise id o w).1).1
  process_state-gate id none w stored = inl refl
  process_state-gate id (some s) w stored =
      elim (Bool-cases (terminal s || s.status == waiting_for_approval)) [
        | inl done ↦ rw done (inl refl)
        | inr open_ ↦ rw open_ (resume_or_decide-gate id s.pending_action s w stored refl)
      ]

  -- One step of a workflow makes at most one call of the tool backend. A tool that it calls has
  -- validated arguments and an answer of the policy that allows it; and either the policy asks for
  -- no approval, or the call is the workflow's pending action and that action's approval had been
  -- granted before the step.
  pub process-gate : (id : String) (w : World) → AtMostOne (IsGated id w) w (process runtime id w).1
  unfolding process required_state get_workflow
  process-gate id w = process_state-gate id (stored_state id w) w refl
