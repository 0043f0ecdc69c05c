-- ===== src/Store/Events.antt =====
-- agent_resilience/store.py: `record_event` and `list_events` of the audit trail.
use agent_resilience_runtime.Prelude.{String, Bool, List, [], ◌∷◌, ◌++◌, ◌==◌, string_eq, select}
use agent_resilience_runtime.Exec.{gets, modify, transaction}
use agent_resilience_runtime.Store.Tables.{World, EventRow, EventBody, Run}

-- `_record_event`
abbrev pub insert_event : String → EventBody → World → World
insert_event id body w = record w {
  events = w.events ++ record { task_id = id; body = body; created_at = w.now } ∷ [];
}

unfoldable pub record_event : String → EventBody → Run (Unit {0})
record_event id body = transaction (modify (insert_event id body))

abbrev pub is_event_of : String → EventRow → Bool
is_event_of id r = r.task_id == id

unfoldable pub list_events : String → Run (List EventRow)
list_events id = gets (λ w. select (is_event_of id) w.events)
