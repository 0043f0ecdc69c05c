-- ===== src/Runtime/Ends.antt =====
-- What the parts of a round of agent_resilience/runtime.py return: a state that has ended or waits, or
-- one whose action is done.
use agent_resilience_runtime.Prelude.{
  ℕ, String, Bool, true, Option, none, some, ◌≡◌, ◌⊎◌, inl, inr, refl, sym, ap, ◌==◌, nat_eq,
  string_eq, ◌||◌, not, Bool-cases, count_where,
}
use agent_resilience_runtime.Exec.{
  Failure, Result, ok, err, ok_inj, attempt, gets, is_retryable, message, pure, raise, ◌>>=◌, ◌>>◌,
}
use agent_resilience_runtime.Exec.Returns.{
  Returns, Returns-pure, Returns-raise, Returns-any, Returns-bind, Returns-if, Returns-then,
}
use agent_resilience_runtime.Models.{
  WorkflowState, ToolName, Arguments, PendingAction, terminal, waiting_for_approval, loop_stopped,
  completed, status_eq, tool_eq,
}
use agent_resilience_runtime.Models.Values.{Json}
use agent_resilience_runtime.Policy.{PolicyDecision}
use agent_resilience_runtime.Store.{
  Run, EventBody, save_workflow, is_checkpoint, record_event, create_approval,
}
use agent_resilience_runtime.Tools.{gateway_execute, action_id}
use agent_resilience_runtime.Runtime.{
  WorkflowRuntime, failed_state, fail_workflow, retried, completed_tool, after_tool, execute_tool,
  waiting_state, await_approval, chaos_pause, apply_policy, stop_loop, complete_workflow,
}

-- The workflow has ended, or waits for a human.
abbrev pub is_settled : WorkflowState → Bool
is_settled s = terminal s || s.status == waiting_for_approval

-- What a save keeps of a state.
pub record SameSteps (s r : WorkflowState) : Type 0 where
  pub history : r.tool_history ≡ s.tool_history
  pub pending : r.pending_action ≡ s.pending_action
  pub status : r.status ≡ s.status

pub save_workflow-SameSteps :
    (s : WorkflowState) (v : ℕ) → Returns (SameSteps s) (save_workflow s v)
unfolding save_workflow
save_workflow-SameSteps s v = record {
  at = λ w t r h. elim (Bool-cases (count_where (is_checkpoint s.task_id v) w.workflows == 1)) [
    | inl one ↦
        rw (sym (ok_inj (ap (λ p. p.0) (rw one at h))))
          (record { history = refl; pending = refl; status = refl })
    | inr stale ↦ let h' = rw stale at h in absurd (cc (ap (λ p. p.0) h'))
  ];
}

abbrev pub IsSettled : WorkflowState → Type 0
IsSettled r = is_settled r ≡ true

save-IsSettled :
    (s : WorkflowState) (v : ℕ) → IsSettled s → (r : WorkflowState) → SameSteps s r → IsSettled r
save-IsSettled s v h r k = rw k.status h

-- A save of a settled state that is returned after some other call.
saved-IsSettled :
    (s : WorkflowState) (v : ℕ) (next : WorkflowState → Run (Unit {0}))
    → IsSettled s
    → Returns IsSettled (save_workflow s v >>= λ r. (next r >> pure r))
saved-IsSettled s v next h = Returns-bind _ _ _ _ (save_workflow-SameSteps s v) (λ r k.
    Returns-bind _ _ _ _ (Returns-any _)
      (λ u a. Returns-pure IsSettled r (save-IsSettled s v h r k)))

pub fail_workflow-IsSettled :
    (s : WorkflowState) (why category : String) → Returns IsSettled (fail_workflow s why category)
unfolding fail_workflow
fail_workflow-IsSettled s why category = saved-IsSettled (failed_state s why) s.version _ refl

-- The action is done, and the history of tools is as it was.
pub record IsDone (s r : WorkflowState) : Type 0 where
  pub history : r.tool_history ≡ s.tool_history
  pub pending : r.pending_action ≡ none

abbrev pub Ends : WorkflowState → WorkflowState → Type 0
Ends s r = IsSettled r ⊎ IsDone s r

module _ (runtime : WorkflowRuntime) where
  pub stop_loop-IsSettled :
      (s : WorkflowState) (why : String) → Returns IsSettled (stop_loop runtime s why)
  unfolding stop_loop
  stop_loop-IsSettled s why =
      saved-IsSettled (record s { status = loop_stopped; last_error = some why }) s.version _ refl

  pub complete_workflow-IsSettled :
      (s : WorkflowState) (answer : Option String)
      → Returns IsSettled (complete_workflow runtime s answer)
  unfolding complete_workflow
  complete_workflow-IsSettled s answer =
      saved-IsSettled (record s { status = completed; final_answer = answer; current_step = none })
        s.version _ refl

  await_approval-IsSettled :
      (s : WorkflowState) (p : PendingAction) → Returns IsSettled (await_approval runtime s p)
  unfolding await_approval
  await_approval-IsSettled s p =
      Returns-bind _ _ _ _ (save_workflow-SameSteps (waiting_state runtime s p) s.version) (λ r k.
        let told = record_event s.task_id (EventBody.approval_required p) in
        Returns-then IsSettled (create_approval s.task_id p.action_id) (told >> pure r) (
          Returns-then IsSettled told (pure r)
            (Returns-pure IsSettled r (save-IsSettled (waiting_state runtime s p) 0 refl r k))))

  settled-Ends :
      {m : Run WorkflowState} (s : WorkflowState) → Returns IsSettled m → Returns (Ends s) m
  settled-Ends s h = record { at = λ w t r e. inl (h.at w t r e) }

  after_tool-Ends :
      (s : WorkflowState) (t : ToolName) (o : Result (Json × Bool))
      → Returns (Ends s) (after_tool runtime s t o)
  after_tool-Ends s t (ok (result, cached)) =
      Returns-bind _ _ _ _ (save_workflow-SameSteps (completed_tool runtime s t result) s.version)
        (λ r k. Returns-bind _ _ _ _ (Returns-any _) (λ u a.
          Returns-pure (Ends s) r (inr (record { history = k.history; pending = k.pending }))))
  after_tool-Ends s t (err (Failure.permanent m)) =
      settled-Ends s (fail_workflow-IsSettled s m "tool")
  after_tool-Ends s t (err e) =
      let save = save_workflow (retried s (message e)) s.version in
      let told = record_event s.task_id (EventBody.tool_retryable_failure t (message e)) in
      Returns-if (Ends s) (is_retryable e) (save >> (told >> raise e)) (raise e)
        (λ again.
          Returns-then (Ends s) save (told >> raise e)
            (Returns-then (Ends s) told (raise e) (Returns-raise (Ends s) e)))
        (λ other. Returns-raise (Ends s) e)

  pub execute_tool-Ends :
      (s : WorkflowState) (t : ToolName) (a : Arguments)
      → Returns (Ends s) (execute_tool runtime s t a)
  unfolding execute_tool
  execute_tool-Ends s t a =
      let call = attempt (gateway_execute runtime.digests runtime.backend s t a) in
      Returns-bind _ (Ends s) call (after_tool runtime s t) (Returns-any call)
        (λ o u. after_tool-Ends s t o)

  abbrev gated : WorkflowState → ToolName → String → Arguments → PolicyDecision → ℕ → PendingAction
  gated s t why a p now = record {
    action_id = action_id runtime.digests s t a;
    tool = t;
    arguments = a;
    risk = p.risk;
    rationale = why;
    created_at = now;
  }

  pub apply_policy-Ends :
      (s : WorkflowState) (t : ToolName) (why : String) (a : Arguments) (p : PolicyDecision)
      → Returns (Ends s) (apply_policy runtime s t why a p)
  apply_policy-Ends s t why a p =
      Returns-if _ (not p.allowed) _ _
        (λ denied.
          let told = record_event s.task_id (EventBody.policy_denied t p.reason) in
          Returns-then (Ends s) told (fail_workflow s p.reason "policy")
            (settled-Ends s (fail_workflow-IsSettled s p.reason "policy")))
        (λ allowed.
          Returns-if _ p.approval_required _ _
            (λ needed.
              Returns-bind _ (Ends s) (gets (λ w. w.now))
                (λ now. await_approval runtime s (gated s t why a p now)) (Returns-any _)
                (λ now u. settled-Ends s (await_approval-IsSettled s (gated s t why a p now))))
            (λ free.
              Returns-then (Ends s) (chaos_pause runtime s t) (execute_tool runtime s t a)
                (execute_tool-Ends s t a)))
