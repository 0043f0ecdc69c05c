-- ===== src/Store/Trace.antt =====
-- The store as a sequence of its operations: agent_resilience/store.py, where every method is one
-- transaction. Several workers, the heartbeats and the API interleave at this grain. A call of the
-- tool backend, a question to the decision engine and the passing of time are steps besides.
pub mod Sound
pub mod Audit
pub mod Numbers
pub mod Verdicts
use agent_resilience_runtime.Prelude.{
  ℕ, ◌+◌, String, Bool, Option, none, some, List, [], ◌∷◌, ◌++◌, ◌≡◌, refl, ◌∙◌,
}
use agent_resilience_runtime.Exec.{Result, modify}
use agent_resilience_runtime.Exec.Keeps.{IsPreorder, Moves, Moves-modify, move_rules}
use agent_resilience_runtime.Models.{WorkflowState, ToolName, Arguments, QueueDelivery}
use agent_resilience_runtime.Models.Values.{Json}
use agent_resilience_runtime.Store.Tables.{World, ToolResultRow, EventBody, BackendCall, Run}
use agent_resilience_runtime.Store.Checkpoints.{create_workflow, save_workflow, get_workflow}
use agent_resilience_runtime.Store.Events.{record_event}
use agent_resilience_runtime.Store.Queue.{
  enqueue, claim, acknowledge, extend_lease, retry_or_dead_letter,
}
use agent_resilience_runtime.Store.Results.{checked_result, get_tool_result, save_tool_result}
use agent_resilience_runtime.Store.Approvals.{create_approval, resolve_approval, approval_status}
use agent_resilience_runtime.Store.DeadLetters.{replay_dead_letter}

pub data Operation : Type 0 where
  create : WorkflowState → ℕ → Operation
  save : WorkflowState → ℕ → Operation
  event : String → EventBody → Operation
  enqueue_task : String → ℕ → Operation
  claim_next : String → ℕ → Operation
  acknowledge_id : ℕ → Operation
  extend : QueueDelivery → ℕ → Operation
  retry : QueueDelivery → String → ℕ → Operation
  store_result : (Arguments → String) → String → String → ToolName → Arguments → Json → Operation
  new_approval : String → String → Operation
  decide : String → String → Bool → String → Option String → Operation
  replay : ℕ → String → ℕ → String → String → Operation
  call : BackendCall → Operation
  ask : Operation
  wait : ℕ → Operation

abbrev pub logged : BackendCall → World → World
logged c w = record w { calls = w.calls ++ c ∷ [] }

abbrev pub asked : World → World
asked w = record w { asks = w.asks + 1 }

abbrev pub perform : Operation → World → World
perform (create s max) w = (create_workflow s max w).1
perform (save s v) w = (save_workflow s v w).1
perform (event id e) w = (record_event id e w).1
perform (enqueue_task id max) w = (enqueue id max w).1
perform (claim_next worker lease) w = (claim worker lease w).1
perform (acknowledge_id i) w = (acknowledge i w).1
perform (extend d lease) w = (extend_lease d lease w).1
perform (retry d why base) w = (retry_or_dead_letter d why base w).1
perform (store_result hash key id t a v) w = (save_tool_result hash key id t a v w).1
perform (new_approval id action) w = (create_approval id action w).1
perform (decide id action approved actor why) w =
    (resolve_approval id action approved actor why w).1
perform (replay i id max actor why) w = (replay_dead_letter i id max actor why w).1
perform (call c) w = logged c w
perform ask w = asked w
perform (wait n) w = record w { now = w.now + n }

abbrev pub perform_all : List Operation → World → World
perform_all [] w = w
perform_all (o ∷ os) w = perform_all os (perform o w)

-- Some sequence of operations leads from the one world to the other.
pub record Reaches (w w' : World) : Type 0 where
  pub trace : List Operation
  pub arrives : perform_all trace w ≡ w'

perform_all-append :
    (os ps : List Operation) (w : World)
    → perform_all (os ++ ps) w ≡ perform_all ps (perform_all os w)
perform_all-append [] ps w = refl
perform_all-append (o ∷ os) ps w = perform_all-append os ps (perform o w)

joined : (w v u : World) → Reaches w v → Reaches v u → Reaches w u
joined w v u p q = record {
  trace = p.trace ++ q.trace;
  arrives = perform_all-append p.trace q.trace w ∙ rw (p.arrives, q.arrives) refl;
}

pub Reaches-IsPreorder : IsPreorder Reaches
Reaches-IsPreorder = record { same = λ w. record { trace = []; arrives = refl }; then_ = joined }

by : (o : Operation) (w : World) → Reaches w (perform o w)
by o w = record { trace = o ∷ []; arrives = refl }

pub create_workflow-Reaches : (s : WorkflowState) (max : ℕ) → Moves Reaches (create_workflow s max)
create_workflow-Reaches s max = record { at = by (Operation.create s max) }

pub save_workflow-Reaches : (s : WorkflowState) (v : ℕ) → Moves Reaches (save_workflow s v)
save_workflow-Reaches s v = record { at = by (Operation.save s v) }

pub record_event-Reaches : (id : String) (e : EventBody) → Moves Reaches (record_event id e)
record_event-Reaches id e = record { at = by (Operation.event id e) }

pub enqueue-Reaches : (id : String) (max : ℕ) → Moves Reaches (enqueue id max)
enqueue-Reaches id max = record { at = by (Operation.enqueue_task id max) }

pub claim-Reaches : (worker : String) (lease : ℕ) → Moves Reaches (claim worker lease)
claim-Reaches worker lease = record { at = by (Operation.claim_next worker lease) }

pub acknowledge-Reaches : (i : ℕ) → Moves Reaches (acknowledge i)
acknowledge-Reaches i = record { at = by (Operation.acknowledge_id i) }

pub extend_lease-Reaches : (d : QueueDelivery) (lease : ℕ) → Moves Reaches (extend_lease d lease)
extend_lease-Reaches d lease = record { at = by (Operation.extend d lease) }

pub retry_or_dead_letter-Reaches :
    (d : QueueDelivery) (why : String) (base : ℕ) → Moves Reaches (retry_or_dead_letter d why base)
retry_or_dead_letter-Reaches d why base = record { at = by (Operation.retry d why base) }

pub save_tool_result-Reaches :
    (hash : Arguments → String) (key id : String) (t : ToolName) (a : Arguments) (v : Json)
    → Moves Reaches (save_tool_result hash key id t a v)
save_tool_result-Reaches hash key id t a v = record {
  at = by (Operation.store_result hash key id t a v);
}

pub create_approval-Reaches : (id action : String) → Moves Reaches (create_approval id action)
create_approval-Reaches id action = record { at = by (Operation.new_approval id action) }

pub resolve_approval-Reaches :
    (id action : String) (approved : Bool) (actor : String) (why : Option String)
    → Moves Reaches (resolve_approval id action approved actor why)
resolve_approval-Reaches id action approved actor why = record {
  at = by (Operation.decide id action approved actor why);
}

pub replay_dead_letter-Reaches :
    (i : ℕ) (id : String) (max : ℕ) (actor why : String)
    → Moves Reaches (replay_dead_letter i id max actor why)
replay_dead_letter-Reaches i id max actor why = record {
  at = by (Operation.replay i id max actor why);
}

pub logged-Reaches : (c : BackendCall) → Moves Reaches (modify (logged c))
logged-Reaches c = record { at = by (Operation.call c) }

pub asked-Reaches : (w : World) → Reaches w (asked w)
asked-Reaches = by Operation.ask

stay : (w : World) → Reaches w w
stay = Reaches-IsPreorder.same

pub get_workflow-Reaches : (id : String) → Moves Reaches (get_workflow id)
unfolding get_workflow
get_workflow-Reaches id = record { at = stay }

pub approval_status-Reaches : (id action : String) → Moves Reaches (approval_status id action)
unfolding approval_status
approval_status-Reaches id action = record { at = stay }

checked_result-Reaches :
    (hash : Arguments → String) (row : Option ToolResultRow) (a : Arguments)
    → Moves Reaches (checked_result hash row a)
checked_result-Reaches hash none a = record { at = stay }
checked_result-Reaches hash (some r) a = search (move_rules, Reaches-IsPreorder)

pub get_tool_result-Reaches :
    (hash : Arguments → String) (key : String) (a : Arguments)
    → Moves Reaches (get_tool_result hash key a)
unfolding get_tool_result
get_tool_result-Reaches hash key a = search (move_rules, Reaches-IsPreorder, checked_result-Reaches)

pub ruleset reach_rules = (
  move_rules, Reaches-IsPreorder, create_workflow-Reaches, save_workflow-Reaches,
  record_event-Reaches, enqueue-Reaches, claim-Reaches, acknowledge-Reaches, extend_lease-Reaches,
  retry_or_dead_letter-Reaches, save_tool_result-Reaches, create_approval-Reaches,
  resolve_approval-Reaches, replay_dead_letter-Reaches, logged-Reaches, get_workflow-Reaches,
  approval_status-Reaches, get_tool_result-Reaches,
)
