-- ===== src/Store/Trace/Sound.antt =====
-- The checkpoints of agent_resilience/store.py over every sequence of operations: the rows of a
-- workflow, and their columns against the states that are stored in them.
use agent_resilience_runtime.Prelude.{
  ℕ, ◌≤◌, String, true, false, List, [], ◌∷◌, ◌≡◌, refl, sym, inl, inr, ◌==◌, nat_eq, string_eq,
  arith, Bool-cases, Option-cases, is_some, find, count_where, count_where-append, All, All-append,
}
use mathlib.Core.Path.{subst}
use agent_resilience_runtime.Prelude.Rows.{All-update_where, count-update_where, count-of-find-none}
use agent_resilience_runtime.Models.{WorkflowState}
use agent_resilience_runtime.Store.Tables.{World, WorkflowRow}
use agent_resilience_runtime.Store.Checkpoints.{
  create_workflow, insert_workflow, save_workflow, workflow_row, has_task, is_checkpoint,
  write_state, update_workflow, next_checkpoint,
}
use agent_resilience_runtime.Store.Checkpoints.Lock.{IsKeyed}
use agent_resilience_runtime.Store.DeadLetters.{replay_dead_letter, is_dead_letter, replayed}
use agent_resilience_runtime.Store.Frame.{
  SkipsQueue, record_event-Same, create_approval-Same, enqueue-Same, claim-Same, acknowledge-Same,
  extend_lease-Same, retry_or_dead_letter-Same, resolve_approval-Same, save_tool_result-Same,
}
use agent_resilience_runtime.Store.Trace.{Operation, perform, perform_all}

abbrev workflows_of : World → List WorkflowRow
workflows_of w = w.workflows

queue_skip : SkipsQueue workflows_of
queue_skip = record { skip = λ w x n. refl }

-- The columns of a row say what its state says.
pub record Agrees (r : WorkflowRow) : Type 0 where
  pub same_task : r.state.task_id ≡ r.task_id
  pub same_version : r.state.version ≡ r.version

pub record IsSound (w : World) : Type 0 where
  pub keyed : IsKeyed w
  pub agrees : All Agrees w.workflows

same_workflows : (w w' : World) → w'.workflows ≡ w.workflows → IsSound w → IsSound w'
same_workflows w w' e k = record {
  keyed = record { unique = rw e k.keyed.unique };
  agrees = rw e k.agrees;
}

written :
    (s : WorkflowState) (v : ℕ) (r : WorkflowRow)
    → is_checkpoint s.task_id v r ≡ true
    → Agrees (write_state s r)
written s v r h = record {
  same_task = ground (arith, string_eq.beq_iff r.task_id s.task_id);
  same_version = refl;
}

update_workflow-IsSound :
    (s : WorkflowState) (v : ℕ) (w : World) → IsSound w → IsSound (update_workflow s v w)
update_workflow-IsSound s v w k = record {
  keyed = record {
    unique = λ id.
        rw
          (count-update_where (has_task id) (is_checkpoint s.task_id v) (write_state s) (λ r. refl)
            w.workflows)
          (k.keyed.unique id);
  };
  agrees =
      All-update_where Agrees (is_checkpoint s.task_id v) (write_state s) (written s v) w.workflows
        k.agrees;
}

insert_workflow-IsSound :
    (s : WorkflowState) (w : World)
    → is_some (workflow_row s.task_id w) ≡ false
    → IsSound w
    → IsSound (insert_workflow s w)
insert_workflow-IsSound s w new k = record {
  keyed = record { unique = one };
  agrees =
      All-append Agrees w.workflows _ k.agrees
        (record { same_task = refl; same_version = refl }, tt);
}
  where
    none_yet : count_where (has_task s.task_id) w.workflows ≡ 0
    none_yet = elim (Option-cases (workflow_row s.task_id w)) [
      | inl e ↦ count-of-find-none (has_task s.task_id) w.workflows e
      | inr (r, e) ↦ let h = rw e at new in absurd (cc h)
    ]

    one : (id : String) → count_where (has_task id) (insert_workflow s w).workflows ≤ 1
    one id =
        subst (λ n. n ≤ 1) (sym (count_where-append (has_task id) w.workflows _))
          (elim (Bool-cases (s.task_id == id)) [
            | inl same ↦
                rw (same, sym ((string_eq.beq_iff s.task_id id).0 same), none_yet) (omega arith)
            | inr apart ↦ rw apart (omega (arith, k.keyed.unique id))
          ])

create_workflow-IsSound :
    (s : WorkflowState) (max : ℕ) (w : World) → IsSound w → IsSound (create_workflow s max w).1
unfolding create_workflow
create_workflow-IsSound s max w k = elim (Bool-cases (is_some (workflow_row s.task_id w))) [
  | inl known ↦ rw known k
  | inr new ↦
      rw new (same_workflows (insert_workflow s w) _ refl (insert_workflow-IsSound s w new k))
]

pub save_workflow-IsSound :
    (s : WorkflowState) (v : ℕ) (w : World) → IsSound w → IsSound (save_workflow s v w).1
unfolding save_workflow
save_workflow-IsSound s v w k =
    elim (Bool-cases (count_where (is_checkpoint s.task_id v) w.workflows == 1)) [
      | inl one ↦ rw one (update_workflow-IsSound (next_checkpoint s v w) v w k)
      | inr stale ↦ rw stale k
    ]

replay-IsSound :
    (i : ℕ) (id : String) (max : ℕ) (actor why : String) (w : World)
    → IsSound w
    → IsSound (replay_dead_letter i id max actor why w).1
unfolding replay_dead_letter
replay-IsSound i id max actor why w k = elim (Option-cases (find (is_dead_letter i id) w.queue)) [
  | inl nothing ↦ rw nothing k
  | inr (q, found) ↦ elim (Option-cases (workflow_row q.task_id w)) [
    | inl lost ↦ rw (found, lost) k
    | inr (r, known) ↦
        rw (found, known)
          (same_workflows (update_workflow (replayed r w.now) r.version w) _ refl
            (update_workflow-IsSound (replayed r w.now) r.version w k))
  ]
]

pub perform-IsSound : (o : Operation) (w : World) → IsSound w → IsSound (perform o w)
perform-IsSound (Operation.create s max) w = create_workflow-IsSound s max w
perform-IsSound (Operation.save s v) w = save_workflow-IsSound s v w
perform-IsSound (Operation.replay i id max actor why) w = replay-IsSound i id max actor why w
perform-IsSound (Operation.event id e) w =
    same_workflows w _ ((record_event-Same workflows_of (record { skip = λ u x. refl }) id e).at w)
perform-IsSound (Operation.enqueue_task id max) w =
    same_workflows w _ ((enqueue-Same workflows_of queue_skip id max).at w)
perform-IsSound (Operation.claim_next worker lease) w =
    same_workflows w _ ((claim-Same workflows_of queue_skip worker lease).at w)
perform-IsSound (Operation.acknowledge_id i) w =
    same_workflows w _ ((acknowledge-Same workflows_of queue_skip i).at w)
perform-IsSound (Operation.extend d lease) w =
    same_workflows w _ ((extend_lease-Same workflows_of queue_skip d lease).at w)
perform-IsSound (Operation.retry d why base) w =
    same_workflows w _ ((retry_or_dead_letter-Same workflows_of queue_skip d why base).at w)
perform-IsSound (Operation.store_result hash key id t a v) w =
    same_workflows w _
      ((save_tool_result-Same workflows_of (record { skip = λ u x. refl }) hash key id t a v).at w)
perform-IsSound (Operation.new_approval id action) w =
    same_workflows w _
      ((create_approval-Same workflows_of (record { skip = λ u x. refl }) id action).at w)
perform-IsSound (Operation.decide id action approved actor why) w = same_workflows w _ (
    (resolve_approval-Same workflows_of (record { skip = λ u x. refl }) id action approved actor
        why).at
      w)
perform-IsSound (Operation.call c) w = same_workflows w _ refl
perform-IsSound Operation.ask w = same_workflows w _ refl
perform-IsSound (Operation.wait n) w = same_workflows w _ refl

-- Whatever operations run, in any order, from a world where it is so, each workflow has at most
-- one checkpoint, and the columns `task_id` and `version` of every checkpoint are those of the
-- state that it stores.
pub perform_all-IsSound : (os : List Operation) (w : World) → IsSound w → IsSound (perform_all os w)
perform_all-IsSound [] w k = k
perform_all-IsSound (o ∷ os) w k = perform_all-IsSound os (perform o w) (perform-IsSound o w k)
