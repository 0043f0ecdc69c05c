-- ===== src/Store/Trace/Audit.antt =====
-- The audit trail of agent_resilience/store.py over every sequence of operations.
use agent_resilience_runtime.Prelude.{
  ℕ, String, List, [], ◌∷◌, ◌++◌, ◌≡◌, refl, sym, ◌∙◌, inl, inr, nat_eq, Bool-cases, Option-cases,
  is_some, find,
}
use mathlib.Core.List.{append_assoc, append-nil}
use agent_resilience_runtime.Models.{WorkflowState}
use agent_resilience_runtime.Store.Tables.{World, EventRow, EventBody}
use agent_resilience_runtime.Store.Checkpoints.{create_workflow, workflow_row}
use agent_resilience_runtime.Store.Events.{record_event}
use agent_resilience_runtime.Store.DeadLetters.{replay_dead_letter, is_dead_letter}
use agent_resilience_runtime.Store.Frame.{
  SkipsQueue, save_workflow-Same, create_approval-Same, enqueue-Same, claim-Same, acknowledge-Same,
  extend_lease-Same, retry_or_dead_letter-Same, resolve_approval-Same, save_tool_result-Same,
}
use agent_resilience_runtime.Store.Trace.{Operation, perform, perform_all}

abbrev events_of : World → List EventRow
events_of w = w.events

-- The events of the one world, with more behind them.
pub record Extends (w w' : World) : Type 0 where
  pub more : List EventRow
  pub longer : w'.events ≡ w.events ++ more

same_events : (w w' : World) → w'.events ≡ w.events → Extends w w'
same_events w w' e = record { more = []; longer = e ∙ sym (append-nil w.events) }

one_more : (w w' : World) (e : EventRow) → w'.events ≡ w.events ++ e ∷ [] → Extends w w'
one_more w w' e h = record { more = e ∷ []; longer = h }

queue_skip : SkipsQueue events_of
queue_skip = record { skip = λ w x n. refl }

create-Extends : (s : WorkflowState) (max : ℕ) (w : World) → Extends w (create_workflow s max w).1
unfolding create_workflow
create-Extends s max w = elim (Bool-cases (is_some (workflow_row s.task_id w))) [
  | inl known ↦ rw known (same_events w w refl)
  | inr new ↦ rw new (one_more w _ _ refl)
]

replay-Extends :
    (i : ℕ) (id : String) (max : ℕ) (actor why : String) (w : World)
    → Extends w (replay_dead_letter i id max actor why w).1
unfolding replay_dead_letter
replay-Extends i id max actor why w = elim (Option-cases (find (is_dead_letter i id) w.queue)) [
  | inl nothing ↦ rw nothing (same_events w w refl)
  | inr (q, found) ↦ elim (Option-cases (workflow_row q.task_id w)) [
    | inl lost ↦ rw (found, lost) (same_events w w refl)
    | inr (r, known) ↦ rw (found, known) (one_more w _ _ refl)
  ]
]

event-Extends : (id : String) (e : EventBody) (w : World) → Extends w (record_event id e w).1
unfolding record_event
event-Extends id e w = one_more w _ _ refl

perform-Extends : (o : Operation) (w : World) → Extends w (perform o w)
perform-Extends (Operation.create s max) w = create-Extends s max w
perform-Extends (Operation.event id e) w = event-Extends id e w
perform-Extends (Operation.replay i id max actor why) w = replay-Extends i id max actor why w
perform-Extends (Operation.save s v) w =
    same_events w _ ((save_workflow-Same events_of (record { skip = λ u x. refl }) s v).at w)
perform-Extends (Operation.enqueue_task id max) w =
    same_events w _ ((enqueue-Same events_of queue_skip id max).at w)
perform-Extends (Operation.claim_next worker lease) w =
    same_events w _ ((claim-Same events_of queue_skip worker lease).at w)
perform-Extends (Operation.acknowledge_id i) w =
    same_events w _ ((acknowledge-Same events_of queue_skip i).at w)
perform-Extends (Operation.extend d lease) w =
    same_events w _ ((extend_lease-Same events_of queue_skip d lease).at w)
perform-Extends (Operation.retry d why base) w =
    same_events w _ ((retry_or_dead_letter-Same events_of queue_skip d why base).at w)
perform-Extends (Operation.store_result hash key id t a v) w =
    same_events w _
      ((save_tool_result-Same events_of (record { skip = λ u x. refl }) hash key id t a v).at w)
perform-Extends (Operation.new_approval id action) w =
    same_events w _
      ((create_approval-Same events_of (record { skip = λ u x. refl }) id action).at w)
perform-Extends (Operation.decide id action approved actor why) w = same_events w _ (
    (resolve_approval-Same events_of (record { skip = λ u x. refl }) id action approved actor
        why).at
      w)
perform-Extends (Operation.call c) w = same_events w _ refl
perform-Extends Operation.ask w = same_events w _ refl
perform-Extends (Operation.wait n) w = same_events w _ refl

-- Whatever operations run, in any order, the audit trail keeps every event that it had, and new
-- ones stand behind the old.
pub perform_all-Extends : (os : List Operation) (w : World) → Extends w (perform_all os w)
perform_all-Extends [] w = same_events w w refl
perform_all-Extends (o ∷ os) w =
    let first = perform-Extends o w in
    let rest = perform_all-Extends os (perform o w) in
    record {
      more = first.more ++ rest.more;
      longer = rest.longer ∙ rw first.longer (append_assoc w.events first.more rest.more);
    }
