-- ===== src/Api/Stuck.antt =====
-- A workflow that waits for an approval which is already decided: `approve` and `reject` of
-- agent_resilience/api.py, and `WorkflowRuntime.process` of agent_resilience/runtime.py.
use agent_resilience_runtime.Prelude.{ℕ, String, true, false, Option, some, ◌≡◌, refl}
use agent_resilience_runtime.Exec.{ok, err, value_error}
use agent_resilience_runtime.Models.{WorkflowState, PendingAction, waiting_for_approval, status_eq}
use agent_resilience_runtime.Store.{World, get_workflow}
use agent_resilience_runtime.Store.Approvals.Once.{pending_count, resolve_approval-refused}
use agent_resilience_runtime.Runtime.{WorkflowRuntime, process, required_state}
use agent_resilience_runtime.Runtime.Gate.{stored_state}
use agent_resilience_runtime.Api.{required, approve, reject}

-- A workflow that waits for the approval of an action, where that approval is not pending, stays as
-- it is: a grant and a rejection are both refused with `ValueError`, and a worker's step returns the
-- waiting state. None of the three writes anything.
pub waiting-IsStuck :
    (runtime : WorkflowRuntime) (id actor : String) (why : Option String) (max : ℕ)
    (s : WorkflowState) (p : PendingAction) (w : World)
    → stored_state id w ≡ some s
    → s.status ≡ waiting_for_approval
    → s.pending_action ≡ some p
    → pending_count id p.action_id w ≡ 0
    → (approve id actor why max w ≡ (err (value_error "approval is not pending"), w))
      × (reject id actor why w ≡ (err (value_error "approval is not pending"), w))
      × (process runtime id w ≡ (ok s, w))
unfolding approve reject process required required_state get_workflow
waiting-IsStuck runtime id actor why max s p w stored waits pending none_left = (
  rw (stored, waits, pending, resolve_approval-refused id p.action_id true actor why w none_left)
      refl,
  rw (stored, waits, pending, resolve_approval-refused id p.action_id false actor why w none_left)
      refl,
  rw (stored, waits) refl,
)
