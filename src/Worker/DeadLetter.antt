-- ===== src/Worker/DeadLetter.antt =====
-- `DurableWorker.run_once` of agent_resilience/worker.py when a delivery has used its last attempt.
use agent_resilience_runtime.Prelude.{
  ℕ, find, ◌+◌, ◌≤◌, String, Bool, true, false, not, some, ◌≡◌, refl, sym, ap, ◌∙◌, inl, inr,
  Option-cases, if◌then◌else◌, some_inj, nat_eq, nat_beq_iff, le→leb, string_eq,
}
use mathlib.Core.Option
use agent_resilience_runtime.Prelude.Rows.{find-All, find_sound}
use agent_resilience_runtime.Exec.{ok, pure, ◌>>=◌}
use agent_resilience_runtime.Models.{WorkflowState, QueueDelivery, dead_lettered, terminal}
use agent_resilience_runtime.Store.{
  World, QueueRow, QueueStatus, WorkflowRow, workflow_row, has_task, get_workflow,
  retry_or_dead_letter, record_event, next_checkpoint, update_workflow, is_exhausted, save_workflow,
  insert_event, EventBody, Run,
}
use agent_resilience_runtime.Store.Checkpoints.Lock.{
  save_workflow-compare_and_swap, current_version, workflow_row-update,
}
use agent_resilience_runtime.Store.Queue.Claim.{row_of}
use agent_resilience_runtime.Store.Queue.Retry.{delay_of, retry_or_dead_letter-decides}
use agent_resilience_runtime.Store.Frame.{retry_or_dead_letter-Same}
use agent_resilience_runtime.Store.Trace.Sound.{IsSound, Agrees, perform-IsSound}
use agent_resilience_runtime.Store.Trace.{Operation}
use agent_resilience_runtime.Runtime.Gate.{stored_state}
use agent_resilience_runtime.Worker.{Settings, on_retryable, closed, dead_letter_state}

-- The row of a stored state.
pub record HasCheckpoint (id : String) (s : WorkflowState) (w : World) : Type 0 where
  row : WorkflowRow
  found : workflow_row id w ≡ some row
  holds : row.state ≡ s
  pub of_task : s.task_id ≡ id
  current : row.version ≡ s.version

pub checkpoint_of :
    (id : String) (s : WorkflowState) (w : World)
    → IsSound w
    → stored_state id w ≡ some s
    → HasCheckpoint id s w
checkpoint_of id s w k stored = elim (Option-cases (workflow_row id w)) [
  | inl lost ↦ let h = rw lost at stored in absurd (cc h)
  | inr (r, found) ↦
      let holds : r.state ≡ s = some_inj (sym (ap (Option.map (λ x. x.state)) found) ∙ stored) in
      let agrees = find-All Agrees (has_task id) w.workflows r found k.agrees in
      let mine : r.task_id ≡ id =
        (string_eq.beq_iff r.task_id id).0 (find_sound (has_task id) w.workflows r found) in
      record {
        row = r;
        found = found;
        holds = holds;
        of_task = sym (ap (λ x. x.task_id) holds) ∙ agrees.same_task ∙ mine;
        current = sym agrees.same_version ∙ ap (λ x. x.version) holds;
      }
]

-- The checkpoint of a workflow whose delivery is given up.
abbrev given_up : WorkflowState → String → World → WorkflowState
given_up s why w = next_checkpoint (closed s dead_lettered why) s.version w

saved_given_up :
    (id : String) (s : WorkflowState) (why : String) (w : World)
    → IsSound w
    → stored_state id w ≡ some s
    → save_workflow (closed s dead_lettered why) s.version w
      ≡ (ok (given_up s why w), update_workflow (given_up s why w) s.version w)
saved_given_up id s why w k stored =
    let c = checkpoint_of id s w k stored in
    let fresh : current_version s.task_id w ≡ some s.version =
      rw (c.of_task, c.found, c.current) refl in
    save_workflow-compare_and_swap (closed s dead_lettered why) s.version w k.keyed
    ∙ rw (fresh, (nat_beq_iff s.version s.version).1 refl) refl

stored_given_up :
    (id : String) (s : WorkflowState) (why : String) (w : World)
    → IsSound w
    → stored_state id w ≡ some s
    → stored_state id (update_workflow (given_up s why w) s.version w) ≡ some (given_up s why w)
stored_given_up id s why w k stored =
    let c = checkpoint_of id s w k stored in
    let mine = (string_eq.beq_iff c.row.task_id s.task_id).1 (
      (string_eq.beq_iff c.row.task_id id).0 (find_sound (has_task id) w.workflows c.row c.found)
      ∙ sym c.of_task) in
    ap (Option.map (λ x. x.state)) (workflow_row-update (given_up s why w) s.version id w)
    ∙ rw (c.found, mine, (nat_beq_iff c.row.version s.version).1 c.current) refl

-- The world that giving a workflow up leaves.
abbrev dead_world : WorkflowState → String → World → World
dead_world s why w =
    insert_event s.task_id (EventBody.dead_lettered why)
      (update_workflow (given_up s why w) s.version w)

give_up_writes :
    (id : String) (s : WorkflowState) (why : String) (w : World)
    → IsSound w
    → stored_state id w ≡ some s
    → terminal s ≡ false
    → (get_workflow id >>= λ found. dead_letter_state found why) w ≡ (ok tt, dead_world s why w)
unfolding get_workflow record_event
give_up_writes id s why w k stored open_ =
    rw (stored, open_, saved_given_up id s why w k stored) refl

retry-keeps_state :
    (d : QueueDelivery) (why : String) (base : ℕ) (w : World)
    → stored_state d.task_id (retry_or_dead_letter d why base w).1 ≡ stored_state d.task_id w
retry-keeps_state d why base w =
    ap (λ rows. Option.map (λ x. x.state) (find (has_task d.task_id) rows))
      ((retry_or_dead_letter-Same (λ v. v.workflows) (record { skip = λ v x n. refl }) d why
          base).at
        w)

retry-keeps_time :
    (d : QueueDelivery) (why : String) (base : ℕ) (w : World)
    → (retry_or_dead_letter d why base w).1.now ≡ w.now
retry-keeps_time d why base w =
    (retry_or_dead_letter-Same (λ v. v.now) (record { skip = λ v x n. refl }) d why base).at w

-- A delivery that is put back, and the step after it.
put_back_then :
    (d : QueueDelivery) (why : String) (base : ℕ) (f : Bool → Run (Unit {0})) (w : World)
    → d.attempts ≤ 1_024
    → (retry_or_dead_letter d why base >>= f) w
      ≡ f (is_exhausted d) (retry_or_dead_letter d why base w).1
unfolding retry_or_dead_letter
put_back_then d why base f w soon = rw (delay_of base d.attempts soon) refl

when_dead :
    (dead : Bool) (m : Run (Unit {0})) (w : World)
    → dead ≡ true
    → (if not dead then pure tt else m) w ≡ m w
when_dead dead m w h = rw h refl

on_retryable-writes :
    (config : Settings) (d : QueueDelivery) (why : String) (s : WorkflowState) (w : World)
    → IsSound w
    → stored_state d.task_id w ≡ some s
    → terminal s ≡ false
    → d.max_attempts ≤ d.attempts
    → d.attempts ≤ 1_024
    → on_retryable config d why w
      ≡ (ok tt, dead_world s why (retry_or_dead_letter d why config.queue_retry_base_seconds w).1)
unfolding on_retryable
on_retryable-writes config d why s w k stored open_ spent soon =
    let base = config.queue_retry_base_seconds in
    let v = (retry_or_dead_letter d why base w).1 in
    let kept = retry-keeps_state d why base w in
    put_back_then d why base
      (λ dead.
        if not dead
        then pure tt
        else get_workflow d.task_id >>= λ found. dead_letter_state found why)
      w soon
    ∙ when_dead (is_exhausted d) (get_workflow d.task_id >>= λ found. dead_letter_state found why) v
        (le→leb _ _ spent)
    ∙ give_up_writes d.task_id s why v (perform-IsSound (Operation.retry d why base) w k)
        (kept ∙ stored) open_

-- A delivery that fails for a retryable reason on its last attempt, of at most 1024, takes its
-- workflow with it: where checkpoints are unique and their columns `task_id` and `version` are those
-- of the state, and the workflow is known and not terminal, the delivery's row becomes `DEAD`, and
-- the workflow's checkpoint the state that was stored, with status `DEAD_LETTERED`, the error that was
-- met, the next version and the time.
pub on_retryable-dead_letters :
    (config : Settings) (d : QueueDelivery) (why : String) (s : WorkflowState) (r : QueueRow)
    (w : World)
    → IsSound w
    → row_of d.id w ≡ some r
    → stored_state d.task_id w ≡ some s
    → terminal s ≡ false
    → d.max_attempts ≤ d.attempts
    → d.attempts ≤ 1_024
    → let w' = (on_retryable config d why w).1 in
      (Option.map (λ q. q.status) (row_of d.id w') ≡ some QueueStatus.dead)
      × (stored_state d.task_id w'
          ≡ some (record s {
            status = dead_lettered;
            last_error = some why;
            version = s.version + 1;
            updated_at = w.now;
          }))
on_retryable-dead_letters config d why s r w k found stored open_ spent soon =
    let base = config.queue_retry_base_seconds in
    let v = (retry_or_dead_letter d why base w).1 in
    let k' : IsSound v = perform-IsSound (Operation.retry d why base) w k in
    let dead = (retry_or_dead_letter-decides d why base w r found).2 soon spent in
    let kept = retry-keeps_state d why base w in
    rw (on_retryable-writes config d why s w k stored open_ spent soon) (
      ap (Option.map (λ q. q.status)) dead,
      stored_given_up d.task_id s why v k' (kept ∙ stored)
          ∙ ap
              (λ t. some (record s {
                status = dead_lettered;
                last_error = some why;
                version = s.version + 1;
                updated_at = t;
              }))
              (retry-keeps_time d why base w),
    )
