-- ===== src/Runtime/Rounds.antt =====
-- How many rounds of agent_resilience/runtime.py a workflow can take: each round uses up the detector's
-- budget of tool calls or a pending action, or ends the workflow or hands it to a human.
use agent_resilience_runtime.Prelude.{
  ℕ, suc, ◌+◌, ◌*◌, ◌-◌, ◌≤◌, ◌<◌, String, false, Option, none, some, [], ◌∷◌, ◌≡◌, ◌⊎◌, inl, inr,
  refl, sym, ◌∙◌, nat_eq, string_eq, if◌then◌else◌, arith, is_some, length, length-append,
}
use agent_resilience_runtime.Exec.{
  Result, ok, err, attempt, gets, is_retryable, message, raise, ◌>>=◌, ◌>>◌,
}
use agent_resilience_runtime.Exec.Returns.{
  Returns, Returns-pure, Returns-raise, Returns-any, Returns-bind, Returns-if, Returns-then,
}
use agent_resilience_runtime.Models.{
  WorkflowState, ToolName, Arguments, PendingAction, status_eq, tool_eq, AgentDecision, Action,
  use_tool, complete, fail, model_dump,
}
use agent_resilience_runtime.Loop.{LoopReason, reason}
use agent_resilience_runtime.Policy.{PolicyDecision}
use agent_resilience_runtime.Store.{
  World, ApprovalStatus, EventBody, save_workflow, record_event, approval_status, get_workflow,
  get_workflow,
}
use agent_resilience_runtime.Tools.{validate_and_decide}
use agent_resilience_runtime.Runtime.Gate.{stored_state}
use agent_resilience_runtime.Runtime.Ends.{
  is_settled, IsSettled, SameSteps, Ends, save_workflow-SameSteps, stop_loop-IsSettled,
  complete_workflow-IsSettled, fail_workflow-IsSettled, execute_tool-Ends, apply_policy-Ends,
}
use agent_resilience_runtime.Runtime.{
  process, required_state, WorkflowRuntime, retried, execute_tool, resume_if,
  resume_approved_action, requested, unless_looping, use_tool_step, use_chosen, act, decided,
  ask_engine, after_decision, started, decide_step, resume_or_decide,
}

module _ (runtime : WorkflowRuntime) where
  -- Two for each tool call that the budget has left, and one for a pending action.
  abbrev pub steps_left : WorkflowState → ℕ
  steps_left s =
      2 * (runtime.loop_detector.max_tool_calls - length s.tool_history)
      + (if is_some s.pending_action then 1 else 0)

  -- A round that uses something up, or ends in a settled state.
  abbrev Progress : WorkflowState → WorkflowState → Type 0
  Progress s r = IsSettled r ⊎ (steps_left r < steps_left s)

  reason-budget :
      (s : WorkflowState)
      → reason runtime.loop_detector s.tool_history s.progress_history ≡ none
      → length s.tool_history < runtime.loop_detector.max_tool_calls
  unfolding reason
  reason-budget s h = ground arith

  requested-Progress :
      (s : WorkflowState) (t : ToolName) (x r : WorkflowState)
      → length (requested runtime s t).tool_history < runtime.loop_detector.max_tool_calls
      → SameSteps (requested runtime s t) x
      → Ends x r
      → Progress s r
  requested-Progress s t x r h k (inl settled) = inl settled
  requested-Progress s t x r h k (inr d) = inr (
      rw (d.history, d.pending, k.history, length-append s.tool_history (t ∷ []))
        (omega (arith, rw (length-append s.tool_history (t ∷ [])) at h)))

  use_tool_step-Progress :
      (s : WorkflowState) (t : ToolName) (why : String) (a : Arguments)
      → Returns (Progress s) (use_tool_step runtime s t why a)
  unfolding use_tool_step
  use_tool_step-Progress s t why a =
      Returns-bind _ (Progress s) (validate_and_decide t a) _ (Returns-any _)
        (λ checked u. unless_looping-Progress checked.0 checked.1 _ refl)
    where
      unless_looping-Progress :
          (b : Arguments) (p : PolicyDecision) (o : Option LoopReason)
          → o
            ≡ reason runtime.loop_detector
                (requested runtime s t).tool_history
                (requested runtime s t).progress_history
          → Returns (Progress s) (unless_looping runtime o (requested runtime s t) t why b p)
      unless_looping-Progress b p (some found) e = record {
        at = λ w w' r h. inl ((stop_loop-IsSettled runtime (requested runtime s t) _).at w w' r h);
      }
      unless_looping-Progress b p none e =
          Returns-bind _ (Progress s) _ _
            (save_workflow-SameSteps (requested runtime s t) (requested runtime s t).version)
            (λ x k. record {
              at = λ w w' r h.
                  requested-Progress s t x r (reason-budget (requested runtime s t) (sym e)) k
                    ((apply_policy-Ends runtime x t why b p).at w w' r h);
            })

  act-Progress :
      (c : Action) (s : WorkflowState) (d : AgentDecision)
      → Returns (Progress s) (act runtime c s d)
  act-Progress complete s d = record {
    at = λ w t r h. inl ((complete_workflow-IsSettled runtime s d.final_answer).at w t r h);
  }
  act-Progress fail s d = record {
    at = λ w t r h. inl ((fail_workflow-IsSettled s d.rationale "agent_decision").at w t r h);
  }
  act-Progress use_tool s d = use_chosen-Progress d.tool
    where
      use_chosen-Progress : (o : Option ToolName) → Returns (Progress s) (use_chosen runtime s o d)
      use_chosen-Progress none = Returns-raise (Progress s) _
      use_chosen-Progress (some t) = use_tool_step-Progress s t d.rationale (model_dump d.arguments)

  after_decision-Progress :
      (s : WorkflowState) (o : Result AgentDecision)
      → Returns (Progress s) (after_decision runtime s o)
  after_decision-Progress s (ok d) =
      let usage = gets (λ w. runtime.engine.take_usage w.asks) in
      let told = record_event s.task_id (EventBody.agent_decision d) in
      Returns-bind _ (Progress s) usage _ (Returns-any usage) (λ u x.
        Returns-then (Progress s) told (act runtime d.action (decided runtime s d u) d)
          (record { at = λ w t r h. (act-Progress d.action (decided runtime s d u) d).at w t r h }))
  after_decision-Progress s (err e) =
      let save = save_workflow (retried s (message e)) s.version in
      let told = record_event s.task_id (EventBody.model_retryable_failure (message e)) in
      Returns-if (Progress s) (is_retryable e) (save >> (told >> raise e)) (raise e)
        (λ again.
          Returns-then (Progress s) save (told >> raise e)
            (Returns-then (Progress s) told (raise e) (Returns-raise (Progress s) e)))
        (λ other. Returns-raise (Progress s) e)

  decide_step-Progress : (s : WorkflowState) → Returns (Progress s) (decide_step runtime s)
  unfolding decide_step
  decide_step-Progress s =
      Returns-bind _ (Progress s) (save_workflow (started s) s.version) _
        (save_workflow-SameSteps (started s) s.version)
        (λ x k.
          let told =
            record_event x.task_id (EventBody.agent_decision_started (x.model_calls + 1)) in
          let asked = attempt (ask_engine runtime x) in
          Returns-then (Progress s) told (asked >>= after_decision runtime x) (
            Returns-bind _ (Progress s) asked (after_decision runtime x) (Returns-any asked) (λ o u.
              record {
                at = λ w t r h.
                    rw (k.history, k.pending) at ((after_decision-Progress x o).at w t r h);
              })))

  resume-Progress :
      (s : WorkflowState) (p : PendingAction)
      → s.pending_action ≡ some p
      → Returns (Progress s) (resume_approved_action runtime s p)
  unfolding resume_approved_action
  resume-Progress s p pending =
      let read = approval_status s.task_id p.action_id in
      Returns-bind _ (Progress s) read (λ o. resume_if runtime o s p) (Returns-any read)
        (λ o u. resume_if-Progress o)
    where
      resume_if-Progress :
          (o : Option ApprovalStatus) → Returns (Progress s) (resume_if runtime o s p)
      resume_if-Progress (some ApprovalStatus.approved) =
          let told = record_event s.task_id (EventBody.approved_action_resumed p.action_id) in
          Returns-then (Progress s) told (execute_tool runtime s p.tool p.arguments) (record {
            at = λ w t r h. elim ((execute_tool-Ends runtime s p.tool p.arguments).at w t r h) [
              | inl settled ↦ inl settled
              | inr d ↦ inr (rw (d.history, d.pending, pending) (omega arith))
            ];
          })
      resume_if-Progress _ = Returns-pure (Progress s) _ (inl refl)

  resume_or_decide-Progress :
      (o : Option PendingAction) (s : WorkflowState)
      → s.pending_action ≡ o
      → Returns (Progress s) (resume_or_decide runtime o s)
  resume_or_decide-Progress none s e = decide_step-Progress s
  resume_or_decide-Progress (some p) s e = resume-Progress s p e

  process-Progress :
      (id : String) (s r : WorkflowState) (w t : World)
      → stored_state id w ≡ some s
      → is_settled s ≡ false
      → process runtime id w ≡ (ok r, t)
      → Progress s r
  unfolding process required_state get_workflow
  process-Progress id s r w t found open_ h =
      (resume_or_decide-Progress s.pending_action s refl).at w t r (rw (found, open_) at h)

  -- Rounds of `process` in a row on one workflow that return: each loads the state that the one before
  -- returned, which is neither ended nor waiting.
  pub data Rounds (id : String) : ℕ → WorkflowState → Type 0 where
    start : (s : WorkflowState) → Rounds id 0 s
    round :
        (n : ℕ) (s r : WorkflowState) (w t : World)
        → stored_state id w ≡ some s
        → is_settled s ≡ false
        → process runtime id w ≡ (ok r, t)
        → Rounds id n r
        → Rounds id (suc n) s

  none_left : {id : String} (n : ℕ) (r : WorkflowState) → IsSettled r → Rounds id n r → n ≡ 0
  none_left _ r settled (start _) = refl
  none_left _ _ settled (round n s r' w t found open_ h rest) = absurd (cc (sym settled ∙ open_))

  -- Rounds of `process` in a row that return, where each loads the state that the one before
  -- returned and that state has neither ended nor waits for an approval, number at most two for
  -- each tool call that is left of the detector's budget, one for a pending action, and one more.
  pub rounds-bounded :
      (id : String) (n : ℕ) (s : WorkflowState)
      → Rounds id n s
      → n
        ≤ 2 * (runtime.loop_detector.max_tool_calls - length s.tool_history)
          + (if is_some s.pending_action then 1 else 0)
          + 1
  rounds-bounded id _ _ (start s) = omega arith
  rounds-bounded id _ _ (round n s r w t found open_ h rest) =
      elim (process-Progress id s r w t found open_ h) [
        | inl settled ↦ omega (arith, none_left n r settled rest)
        | inr less ↦ omega (arith, less, rounds-bounded id n r rest)
      ]
