-- ===== src/Tools/Calls.antt =====
-- What `ToolGateway.execute` of agent_resilience/tools.py lets reach the backend.
use agent_resilience_runtime.Prelude.{
  ℕ, String, Option, none, some, true, ◌≡◌, inl, inr, refl, arith, Bool-cases, Option-cases,
}
use agent_resilience_runtime.Exec.Keeps.{Moves}
use agent_resilience_runtime.Models.{WorkflowState, ToolName, Arguments}
use agent_resilience_runtime.Models.Values.{Json}
use agent_resilience_runtime.Policy.{evaluate}
use agent_resilience_runtime.Store.{BackendCall, get_tool_result, save_tool_result}
use agent_resilience_runtime.Store.Frame.{Same}
use agent_resilience_runtime.Store.Calls.{
  calls, AtMostOne, AtMostOne-after, AtMostOne-before, AtMostOne-Same,
}
use agent_resilience_runtime.Tools.Validation.{validate}
use agent_resilience_runtime.Tools.Gateway.{
  Digests, ToolBackend, validate_and_decide, call_backend, gateway_execute, execute_allowed,
  cached_or_call, store_result, attempt_number, action_id,
}

-- A call of the tool for the workflow, with arguments that it has validated and the policy allows.
pub record IsChecked (s : WorkflowState) (t : ToolName) (a : Arguments) (c : BackendCall)
    : Type 0 where
  pub of_task : c.task_id ≡ s.task_id
  pub of_tool : c.tool ≡ t
  pub validated : validate t a ≡ some c.arguments
  pub allowed : (evaluate t c.arguments).allowed ≡ true

module _ (digests : Digests) (backend : ToolBackend) where
  get_tool_result-Same :
      (key : String) (a : Arguments)
      → Moves (Same calls) (get_tool_result digests.arguments_hash key a)
  unfolding get_tool_result
  get_tool_result-Same key a = record { at = λ w. ground arith }

  store_result-Same :
      (s : WorkflowState) (t : ToolName) (a : Arguments) (key : String) (v : Json)
      → Moves (Same calls) (store_result digests backend s t a key v)
  unfolding save_tool_result
  store_result-Same s t a key v = record { at = λ w. ground arith }

  call_backend-AtMostOne :
      (s : WorkflowState) (t : ToolName) (a b : Arguments) (k : ℕ)
      → validate t a ≡ some b
      → (evaluate t b).allowed ≡ true
      → Moves (AtMostOne (IsChecked s t a)) (call_backend digests backend s t b k)
  unfolding call_backend
  call_backend-AtMostOne s t a b k v ok_ = record {
    at = λ w. inr (
      record { task_id = s.task_id; tool = t; arguments = b; attempt = k },
      refl,
      record { of_task = refl; of_tool = refl; validated = v; allowed = ok_ },
    );
  }

  cached_or_call-AtMostOne :
      (s : WorkflowState) (t : ToolName) (a b : Arguments) (key : String) (cached : Option Json)
      → validate t a ≡ some b
      → (evaluate t b).allowed ≡ true
      → Moves (AtMostOne (IsChecked s t a)) (cached_or_call digests backend s t b key cached)
  cached_or_call-AtMostOne s t a b key (some v) hv ha =
      AtMostOne-Same _ _ (record { at = λ w. refl })
  cached_or_call-AtMostOne s t a b key none hv ha =
      AtMostOne-before _ _ _
        (call_backend-AtMostOne s t a b (attempt_number digests backend s t) hv ha)
        (store_result-Same s t b key)

  execute_allowed-AtMostOne :
      (s : WorkflowState) (t : ToolName) (a b : Arguments)
      → validate t a ≡ some b
      → Moves (AtMostOne (IsChecked s t a)) (execute_allowed digests backend s t (b, evaluate t b))
  execute_allowed-AtMostOne s t a b hv = elim (Bool-cases (evaluate t b).allowed) [
    | inl yes_ ↦ rw yes_ (
        AtMostOne-after _ _ _ (get_tool_result-Same (action_id digests s t b) b)
          (λ cached. cached_or_call-AtMostOne s t a b (action_id digests s t b) cached hv yes_))
    | inr no_ ↦ rw no_ (AtMostOne-Same _ _ (record { at = λ w. refl }))
  ]

  -- An execution calls the backend at most once, with arguments that the tool's model has
  -- validated and that the policy allows.
  pub gateway_execute-AtMostOne :
      (s : WorkflowState) (t : ToolName) (a : Arguments)
      → Moves (AtMostOne (IsChecked s t a)) (gateway_execute digests backend s t a)
  unfolding gateway_execute validate_and_decide
  gateway_execute-AtMostOne s t a = elim (Option-cases (validate t a)) [
    | inl bad ↦ rw bad (AtMostOne-Same _ _ (record { at = λ w. refl }))
    | inr (b, good) ↦ rw good (execute_allowed-AtMostOne s t a b good)
  ]
