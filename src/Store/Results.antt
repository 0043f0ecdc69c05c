-- ===== src/Store/Results.antt =====
-- agent_resilience/store.py: the idempotency records, `get_tool_result` and `save_tool_result`. The
-- digest of the arguments' canonical JSON (hashlib, json) is a parameter.
use agent_resilience_runtime.Prelude.{
  String, Bool, Option, none, some, [], ◌∷◌, ◌++◌, ◌==◌, string_eq, if◌then◌else◌, find, is_some,
}
use agent_resilience_runtime.Exec.{value_error, pure, raise, gets, modify, ◌>>=◌}
use agent_resilience_runtime.Models.Values.{Json}
use agent_resilience_runtime.Models.{Arguments, ToolName}
use agent_resilience_runtime.Store.Tables.{World, ToolResultRow, Run}

abbrev pub has_key : String → ToolResultRow → Bool
has_key k r = r.idempotency_key == k

abbrev pub result_row : String → World → Option ToolResultRow
result_row k w = find (has_key k) w.tool_results

module _ (arguments_hash : Arguments → String) where
  abbrev pub checked_result : Option ToolResultRow → Arguments → Run (Option Json)
  checked_result none a = pure none
  checked_result (some r) a =
      if r.arguments_hash == arguments_hash a
      then pure (some r.result)
      else raise (value_error "idempotency key reused with different arguments")

  unfoldable pub get_tool_result : String → Arguments → Run (Option Json)
  get_tool_result key a = do row ← gets (result_row key); checked_result row a

  -- `INSERT OR IGNORE`: the first result of a key stays.
  abbrev pub insert_result : String → String → ToolName → Arguments → Json → World → World
  insert_result key id tool a v w = if is_some (result_row key w) then w else record w {
    tool_results =
        w.tool_results
        ++ record {
          idempotency_key = key;
          task_id = id;
          tool_name = tool;
          arguments_hash = arguments_hash a;
          result = v;
          created_at = w.now;
        }
          ∷ [];
  }

  unfoldable pub save_tool_result : String → String → ToolName → Arguments → Json → Run (Unit {0})
  save_tool_result key id tool a v = modify (insert_result key id tool a v)
