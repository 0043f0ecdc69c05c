-- ===== src/Tools/Gateway.antt =====
-- agent_resilience/tools.py: `ToolBackend` and `ToolGateway`. The backend is the interface of that
-- file; the digests of JSON text (hashlib, json) are parameters.
use Prim.Native.String.{◌++◌ as concat, slice}
use agent_resilience_runtime.Prelude.{
  ℕ, String, Bool, true, false, not, Option, none, some, [], ◌∷◌, ◌++◌, ◌==◌, if◌then◌else◌, length,
  count_where,
}
use agent_resilience_runtime.Exec.{
  Result, permanent, retryable, pure, raise, gets, lift, modify, ◌>>=◌, ◌>>◌,
}
use agent_resilience_runtime.Models.{ToolName, value, tool_eq, Arguments, Evidence, WorkflowState}
use agent_resilience_runtime.Models.Values.{Json, Fields}
use agent_resilience_runtime.Policy.{PolicyDecision, evaluate}
use agent_resilience_runtime.Store.{Run, get_tool_result, save_tool_result}
use agent_resilience_runtime.Tools.Validation.{validate}

-- sha256 of the canonical JSON text, in hexadecimal.
pub record Digests : Type 0 where
  pub arguments_hash : Arguments → String
  pub evidence_hash : Evidence → String

-- The answer may depend on the number of calls made before.
pub record ToolBackend : Type 0 where
  pub execute : ℕ → WorkflowState → ToolName → Arguments → ℕ → Result Json

-- What pydantic's `ValidationError` says is left out of the message.
abbrev pub validated_or_raise : ToolName → Option Arguments → Run (Arguments × PolicyDecision)
validated_or_raise tool none = raise (permanent (concat "invalid arguments for " (value tool)))
validated_or_raise tool (some a) = pure (a, evaluate tool a)

unfoldable pub validate_and_decide : ToolName → Arguments → Run (Arguments × PolicyDecision)
validate_and_decide tool a = validated_or_raise tool (validate tool a)

-- `not isinstance(result, dict) or not result`
abbrev pub is_invalid : Json → Bool
is_invalid (Json.obj Fields.end) = true
is_invalid (Json.obj (Fields.field k v fs)) = false
is_invalid _ = true

module _ (digests : Digests) where
  open digests use {arguments_hash}

  unfoldable pub action_id : WorkflowState → ToolName → Arguments → String
  action_id s tool a =
      concat s.task_id
        (concat ":" (concat (value tool) (concat ":" (slice (arguments_hash a) 0 16))))

  module _ (backend : ToolBackend) where
    -- One call of the backend, which is recorded.
    unfoldable pub call_backend : WorkflowState → ToolName → Arguments → ℕ → Run Json
    call_backend s tool a attempt = do
      made ← gets (λ w. length w.calls)
      modify (λ w. record w {
        calls =
            w.calls
            ++ record { task_id = s.task_id; tool = tool; arguments = a; attempt = attempt } ∷ [];
      })
      lift (backend.execute made s tool a attempt)

    abbrev pub store_result :
        WorkflowState → ToolName → Arguments → String → Json → Run (Json × Bool)
    store_result s tool a key result =
        if is_invalid result
        then raise (retryable (concat (value tool) " returned invalid structured output"))
        else (save_tool_result arguments_hash key s.task_id tool a result >> pure (result, false))

    abbrev pub attempt_number : WorkflowState → ToolName → ℕ
    attempt_number s tool = count_where (λ name. name == tool) s.tool_history

    abbrev pub cached_or_call :
        WorkflowState → ToolName → Arguments → String → Option Json → Run (Json × Bool)
    cached_or_call s tool a key (some cached) = pure (cached, true)
    cached_or_call s tool a key none = do
      result ← call_backend s tool a (attempt_number s tool)
      store_result s tool a key result

    abbrev pub execute_allowed :
        WorkflowState → ToolName → Arguments × PolicyDecision → Run (Json × Bool)
    execute_allowed s tool (a, policy) =
        if not policy.allowed then raise (permanent policy.reason) else do
          cached ← get_tool_result arguments_hash (action_id s tool a) a
          cached_or_call s tool a (action_id s tool a) cached

    unfoldable pub gateway_execute : WorkflowState → ToolName → Arguments → Run (Json × Bool)
    gateway_execute s tool a = do
      checked ← validate_and_decide tool a
      execute_allowed s tool checked
