-- ===== src/Api/Summary.antt =====
-- agent_resilience/api.py: the endpoints that read, and the counts of `dashboard_summary`. The
-- latencies are floats and are left out; the success rate is its two counts.
use agent_resilience_runtime.Prelude.{
  ℕ, ◌+◌, String, Bool, true, false, not, none, List, [], ◌∷◌, ◌++◌, ◌≡◌, refl, length, count_where,
  ◌==◌, ◌&&◌, string_eq, arith, if◌then◌else◌,
}
use agent_resilience_runtime.Exec.{pure, ◌>>=◌}
use agent_resilience_runtime.Models.{
  WorkflowState, WorkflowStatus, queued, running, waiting_for_approval, completed, failed,
  dead_lettered, loop_stopped, human_rejected, status_eq, terminal, is_terminal,
}
use agent_resilience_runtime.Store.{EventBody, EventRow, Run, list_events}
use agent_resilience_runtime.Store.Lists.{list_workflows}
use agent_resilience_runtime.Api.{required}

-- `get_incident`
unfoldable pub get_incident : String → Run WorkflowState
get_incident id = required id

-- `get_events`
unfoldable pub get_events : String → Run (List EventRow)
get_events id = do s ← required id; list_events id

module _ {A : Type 0} where
  abbrev pub total : (A → ℕ) → List A → ℕ
  total f [] = 0
  total f (x ∷ xs) = f x + total f xs

abbrev pub has_workflow_status : WorkflowStatus → WorkflowState → Bool
has_workflow_status status s = s.status == status

abbrev pub is_tool_failure : EventRow → Bool
is_tool_failure e = elim e.body [
  | EventBody.tool_retryable_failure t why ↦ true
  | EventBody.workflow_failed category why ↦ category == "tool"
  | _ ↦ false
]

pub record Summary : Type 0 where
  pub total_incidents : ℕ
  pub active_incidents : ℕ
  pub completed_incidents : ℕ
  pub terminal_incidents : ℕ
  pub total_retries : ℕ
  pub model_tokens : ℕ
  pub tool_failures : ℕ
  pub statuses : WorkflowStatus → ℕ

abbrev pub summary_of : List WorkflowState → List EventRow → Summary
summary_of workflows events = record {
  total_incidents = length workflows;
  active_incidents = count_where (λ s. not (terminal s)) workflows;
  completed_incidents = count_where (λ s. terminal s && has_workflow_status completed s) workflows;
  terminal_incidents = count_where terminal workflows;
  total_retries = total (λ s. s.retries) workflows;
  model_tokens = total (λ s. s.input_tokens + s.output_tokens) workflows;
  tool_failures = count_where is_tool_failure events;
  statuses = λ status. count_where (has_workflow_status status) workflows;
}

abbrev pub events_of_all : List WorkflowState → Run (List EventRow)
events_of_all [] = pure []
events_of_all (s ∷ ss) = do es ← list_events s.task_id; rest ← events_of_all ss; pure (es ++ rest)

-- `dashboard_summary`
unfoldable pub dashboard_summary : Run Summary
dashboard_summary = do
  workflows ← list_workflows 500 none
  events ← events_of_all workflows
  pure (summary_of workflows events)

abbrev one_if : Bool → ℕ
one_if b = if b then 1 else 0

-- What one incident adds to the counts.
counted :
    (s : WorkflowStatus)
    → (one_if (not (is_terminal s)) + one_if (is_terminal s) ≡ 1)
      × (one_if (not (is_terminal s))
          ≡ one_if (s == queued) + one_if (s == running) + one_if (s == waiting_for_approval))
      × (one_if (is_terminal s)
          ≡ one_if (is_terminal s && s == completed)
            + one_if (s == failed)
            + one_if (s == dead_lettered)
            + one_if (s == loop_stopped)
            + one_if (s == human_rejected))
counted queued = (refl, refl, refl)
counted _ = (refl, refl, refl)

-- The counts of a summary add up: the active incidents are those that are queued, running or waiting,
-- the others are terminal, and each incident is counted under one status.
pub summary_of-adds_up :
    (workflows : List WorkflowState) (events : List EventRow)
    → let s = summary_of workflows events in
      (s.active_incidents + s.terminal_incidents ≡ s.total_incidents)
      × (s.active_incidents
          ≡ s.statuses queued + s.statuses running + s.statuses waiting_for_approval)
      × (s.terminal_incidents
          ≡ s.completed_incidents
            + s.statuses failed
            + s.statuses dead_lettered
            + s.statuses loop_stopped
            + s.statuses human_rejected)
summary_of-adds_up [] events = (refl, refl, refl)
summary_of-adds_up (x ∷ xs) events =
    let rest = summary_of-adds_up xs events in
    let here = counted x.status in
    (omega (arith, rest.0, here.0), omega (arith, rest.1, here.1), omega (arith, rest.2, here.2))
