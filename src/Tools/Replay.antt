-- ===== src/Tools/Replay.antt =====
-- `ToolGateway.execute` of agent_resilience/tools.py after it has succeeded once: the idempotency
-- records.
use agent_resilience_runtime.Prelude.{
  String, length, none, some, Bool, true, ◌≡◌, inl, inr, refl, ap, ◌∙◌, List, [], ◌∷◌, ◌++◌, ◌==◌,
  string_eq, Bool-cases, Option-cases, find, beq_refl,
}
use mathlib.Core.Path.{subst}
use agent_resilience_runtime.Prelude.Rows.{find-append}
use agent_resilience_runtime.Exec.{Result, ok, err, ◌>>=◌, continue}
use agent_resilience_runtime.Models.{WorkflowState, ToolName, Arguments}
use agent_resilience_runtime.Models.Values.{Json}
use agent_resilience_runtime.Policy.{evaluate}
use agent_resilience_runtime.Store.{
  World, ToolResultRow, result_row, has_key, get_tool_result, save_tool_result,
}
use agent_resilience_runtime.Tools.Validation.{validate}
use agent_resilience_runtime.Tools.Gateway.{
  Digests, ToolBackend, validate_and_decide, call_backend, gateway_execute, execute_allowed,
  cached_or_call, store_result, attempt_number, action_id, is_invalid,
}

result_of :
    {x v : Json} {b c : Bool} → ◌≡◌ {A = Result (Json × Bool)} (ok (x, b)) (ok (v, c)) → x ≡ v
result_of h = cc

module _ (digests : Digests) (backend : ToolBackend) where
  open digests use {arguments_hash}

  -- The record of a result, under the key of the action and with the digest of its arguments.
  pub record IsRecorded (key : String) (b : Arguments) (v : Json) (w : World) : Type 0 where
    pub row : ToolResultRow
    pub found : result_row key w ≡ some row
    pub same_arguments : row.arguments_hash ≡ arguments_hash b
    pub same_result : row.result ≡ v

  get_tool_result-recorded :
      (key : String) (b : Arguments) (v : Json) (w : World)
      → IsRecorded key b v w
      → get_tool_result arguments_hash key b w ≡ (ok (some v), w)
  unfolding get_tool_result
  get_tool_result-recorded key b v w r =
      rw (r.found, r.same_arguments, beq_refl (arguments_hash b), r.same_result)

  abbrev new_row : WorkflowState → ToolName → Arguments → String → Json → World → ToolResultRow
  new_row s t b key x w = record {
    idempotency_key = key;
    task_id = s.task_id;
    tool_name = t;
    arguments_hash = arguments_hash b;
    result = x;
    created_at = w.now;
  }

  inserted :
      (key : String) (row : ToolResultRow) (w : World)
      → result_row key w ≡ none
      → row.idempotency_key ≡ key
      → result_row key (record w { tool_results = w.tool_results ++ row ∷ [] }) ≡ some row
  inserted key row w fresh same =
      find-append (has_key key) w.tool_results (row ∷ []) ∙ rw (fresh, same, beq_refl key)

  store_result-IsRecorded :
      (s : WorkflowState) (t : ToolName) (b : Arguments) (key : String) (x v : Json) (cached : Bool)
      (w w' : World)
      → result_row key w ≡ none
      → store_result digests backend s t b key x w ≡ (ok (v, cached), w')
      → IsRecorded key b v w'
  unfolding save_tool_result
  store_result-IsRecorded s t b key x v cached w w' fresh h = elim (Bool-cases (is_invalid x)) [
    | inl bad ↦ let h' = rw bad at h in absurd (cc (ap (λ p. p.0) h'))
    | inr good ↦
        let h' = rw (good, fresh) at h in
        record {
          row = new_row s t b key x w;
          found =
              subst (λ u. result_row key u ≡ some (new_row s t b key x w)) (ap (λ p. p.1) h')
                (inserted key (new_row s t b key x w) w fresh refl);
          same_arguments = refl;
          same_result = result_of (ap (λ p. p.0) h');
        }
  ]

  checked-IsRecorded :
      (key : String) (b : Arguments) (row : ToolResultRow) (v : Json) (cached : Bool)
      (s : WorkflowState) (t : ToolName) (w w' : World)
      → result_row key w ≡ some row
      → (get_tool_result arguments_hash key b >>= cached_or_call digests backend s t b key) w
        ≡ (ok (v, cached), w')
      → IsRecorded key b v w'
  unfolding get_tool_result
  checked-IsRecorded key b row v cached s t w w' found h =
      elim (Bool-cases (row.arguments_hash == arguments_hash b)) [
        | inl same ↦
            let h' = rw (found, same) at h in
            record {
              row = row;
              found = subst (λ u. result_row key u ≡ some row) (ap (λ p. p.1) h') found;
              same_arguments = (string_eq.beq_iff _ _).0 same;
              same_result = result_of (ap (λ p. p.0) h');
            }
        | inr other_ ↦ let h' = rw (found, other_) at h in absurd (cc (ap (λ p. p.0) h'))
      ]

  -- The world after a call has been recorded.
  abbrev calling : WorkflowState → ToolName → Arguments → World → World
  calling s t b w = record w {
    calls =
        w.calls
        ++ record {
          task_id = s.task_id;
          tool = t;
          arguments = b;
          attempt = attempt_number digests backend s t;
        }
          ∷ [];
  }

  cached_or_call-IsRecorded :
      (s : WorkflowState) (t : ToolName) (b : Arguments) (key : String) (v : Json) (cached : Bool)
      (w w' : World)
      → result_row key w ≡ none
      → cached_or_call digests backend s t b key none w ≡ (ok (v, cached), w')
      → IsRecorded key b v w'
  unfolding call_backend
  cached_or_call-IsRecorded s t b key v cached w w' fresh h =
      called (backend.execute (length w.calls) s t b (attempt_number digests backend s t)) h
    where
      called :
          (r : Result Json)
          → continue r (store_result digests backend s t b key) (calling s t b w)
            ≡ (ok (v, cached), w')
          → IsRecorded key b v w'
      called (ok x) e = store_result-IsRecorded s t b key x v cached _ w' fresh e
      called (err x) e = absurd (cc (ap (λ p. p.0) e))

  -- What an execution that succeeded leaves behind.
  record IsExecuted (s : WorkflowState) (t : ToolName) (a : Arguments) (v : Json) (w : World)
      : Type 0 where
    dumped : Arguments
    validated : validate t a ≡ some dumped
    allowed : (evaluate t dumped).allowed ≡ true
    recorded : IsRecorded (action_id digests s t dumped) dumped v w

  looked_up :
      (s : WorkflowState) (t : ToolName) (b : Arguments) (v : Json) (cached : Bool) (w w' : World)
      → (get_tool_result arguments_hash (action_id digests s t b) b
            >>= cached_or_call digests backend s t b (action_id digests s t b))
          w
        ≡ (ok (v, cached), w')
      → IsRecorded (action_id digests s t b) b v w'
  unfolding get_tool_result
  looked_up s t b v cached w w' h = elim (Option-cases (result_row (action_id digests s t b) w)) [
    | inl fresh ↦
        cached_or_call-IsRecorded s t b (action_id digests s t b) v cached w w' fresh
          (rw fresh at h)
    | inr (row, found) ↦
        checked-IsRecorded (action_id digests s t b) b row v cached s t w w' found h
  ]

  allowed_recorded :
      (s : WorkflowState) (t : ToolName) (a b : Arguments) (v : Json) (cached : Bool) (w w' : World)
      → validate t a ≡ some b
      → execute_allowed digests backend s t (b, evaluate t b) w ≡ (ok (v, cached), w')
      → IsExecuted s t a v w'
  allowed_recorded s t a b v cached w w' good h = elim (Bool-cases (evaluate t b).allowed) [
    | inl allowed ↦ record {
      dumped = b;
      validated = good;
      allowed = allowed;
      recorded = looked_up s t b v cached w w' (rw allowed at h);
    }
    | inr denied ↦ let h' = rw denied at h in absurd (cc (ap (λ p. p.0) h'))
  ]

  executed :
      (s : WorkflowState) (t : ToolName) (a : Arguments) (v : Json) (cached : Bool) (w w' : World)
      → gateway_execute digests backend s t a w ≡ (ok (v, cached), w')
      → IsExecuted s t a v w'
  unfolding gateway_execute validate_and_decide
  executed s t a v cached w w' h = elim (Option-cases (validate t a)) [
    | inl bad ↦ let h' = rw bad at h in absurd (cc (ap (λ p. p.0) h'))
    | inr (b, good) ↦ allowed_recorded s t a b v cached w w' good (rw good at h)
  ]

  -- A record stays found when more results are stored after it.
  IsRecorded-later :
      (key : String) (b : Arguments) (v : Json) (w u : World) (more : List ToolResultRow)
      → u.tool_results ≡ w.tool_results ++ more
      → IsRecorded key b v w
      → IsRecorded key b v u
  IsRecorded-later key b v w u more grown r = record {
    row = r.row;
    found =
        ap (find (has_key key)) grown
        ∙ find-append (has_key key) w.tool_results more
        ∙ rw r.found refl;
    same_arguments = r.same_arguments;
    same_result = r.same_result;
  }

  same_action :
      (s s' : WorkflowState) (t : ToolName) (b : Arguments)
      → s'.task_id ≡ s.task_id
      → action_id digests s' t b ≡ action_id digests s t b
  unfolding action_id
  same_action s s' t b e = rw e

  -- Once a tool has been executed for a task with some arguments, executing it again for that task
  -- with those arguments, in any later world that still has the stored results, returns the same
  -- result as a cached one and changes nothing: the backend is not called again.
  pub gateway_execute-replays :
      (s s' : WorkflowState) (t : ToolName) (a : Arguments) (v : Json) (cached : Bool)
      (w w' u : World) (more : List ToolResultRow)
      → gateway_execute digests backend s t a w ≡ (ok (v, cached), w')
      → s'.task_id ≡ s.task_id
      → u.tool_results ≡ w'.tool_results ++ more
      → gateway_execute digests backend s' t a u ≡ (ok (v, true), u)
  unfolding gateway_execute validate_and_decide
  gateway_execute-replays s s' t a v cached w w' u more done same grown =
      let x = executed s t a v cached w w' done in
      let r =
        get_tool_result-recorded (action_id digests s t x.dumped) x.dumped v u
          (IsRecorded-later _ _ v w' u more grown x.recorded) in
      rw (x.validated, x.allowed, same_action s s' t x.dumped same, r) refl
