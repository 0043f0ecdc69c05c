-- ===== src/Contracts/Sqlite.antt =====
-- The store of agent_resilience/store.py under the interface of agent_resilience/contracts.py.
use mathlib.Core.Option
use agent_resilience_runtime.Prelude.{
  ℕ, String, true, false, Option, none, some, ◌≡◌, inl, inr, ◌==◌, string_eq, Option-cases, ◌∙◌,
  refl, ap, arith, if◌then◌else◌, nat_beq_iff, nat_eq, nat_eq,
}
use agent_resilience_runtime.Prelude.Rows.{find_sound, find-All}
use agent_resilience_runtime.Exec.{ok}
use agent_resilience_runtime.Models.{WorkflowState}
use agent_resilience_runtime.Store.{
  World, WorkflowRow, workflow_row, has_task, save_workflow, next_checkpoint, is_checkpoint,
  write_state,
}
use agent_resilience_runtime.Store.Checkpoints.Lock
use agent_resilience_runtime.Store.Checkpoints.Lock.{
  save_workflow-Saved, workflow_row-update, current_version, current_version-update,
}
use agent_resilience_runtime.Store.Trace.Sound.{IsSound, save_workflow-IsSound, Agrees}
use agent_resilience_runtime.Contracts.{version_of, Written}

abbrev pub stored : String → World → Option WorkflowState
stored id w = Option.map (λ r. r.state) (workflow_row id w)

stored-write :
    (s : WorkflowState) (v : ℕ) (o : Option WorkflowRow)
    → ((r : WorkflowRow) → o ≡ some r → has_task s.task_id r ≡ true)
    → Lock.version_of o ≡ some v
    → Option.map
        (λ r. r.state)
        (Option.map (λ r. if is_checkpoint s.task_id v r then write_state s r else r) o)
      ≡ some s
stored-write s v none found h = cc
stored-write s v (some r) found h = ground (arith, found r refl, nat_beq_iff r.version v)

stored-apart :
    (s : WorkflowState) (v : ℕ) (id : String) (o : Option WorkflowRow)
    → ((r : WorkflowRow) → o ≡ some r → has_task id r ≡ true)
    → (s.task_id == id) ≡ false
    → Option.map (λ r. if is_checkpoint s.task_id v r then write_state s r else r) o ≡ o
stored-apart s v id none found h = refl
stored-apart s v id (some r) found h = ground (
  arith,
  found r refl,
  string_eq.beq_iff r.task_id id,
  string_eq.beq_iff r.task_id s.task_id,
  string_eq.beq_iff s.task_id id,
)

version-agrees :
    (id : String) (w : World) → IsSound w → version_of (stored id w) ≡ current_version id w
version-agrees id w k = elim (Option-cases (workflow_row id w)) [
  | inl e ↦ rw e refl
  | inr (r, e) ↦
      rw e (ap some (find-All Agrees (has_task id) w.workflows r e k.agrees).same_version)
]

pub saved-Written :
    (x : WorkflowState) (v : ℕ) (s t : World) (r : WorkflowState)
    → IsSound s
    → save_workflow x v s ≡ (ok r, t)
    → Written IsSound stored x v r s t
saved-Written x v s t r k e =
    let done = save_workflow-Saved x v s k.keyed e in
    let n = next_checkpoint x v s in
    record {
      still_ok = rw (ap (λ p. p.1) e) at (save_workflow-IsSound x v s k);
      fresh = version-agrees x.task_id s k ∙ done.fresh;
      next = rw done.returned refl;
      carries = rw done.returned refl;
      now_stored =
          rw (done.written, done.returned, workflow_row-update n v x.task_id s)
            (stored-write n v (workflow_row x.task_id s)
              (find_sound (has_task x.task_id) s.workflows) done.fresh);
      others = λ id apart.
          rw (done.written, workflow_row-update n v id s)
            (ap (Option.map (λ r. r.state)) (
              stored-apart n v id (workflow_row id s) (find_sound (has_task id) s.workflows)
                apart));
    }
