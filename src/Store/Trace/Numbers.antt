-- ===== src/Store/Trace/Numbers.antt =====
-- The ids of the queue of agent_resilience/store.py over every sequence of operations.
use agent_resilience_runtime.Prelude.{
  ℕ, ◌+◌, ◌≤◌, ◌<◌, String, Bool, List, [], ◌∷◌, ◌≡◌, refl, ap, sym, inl, inr, nat_eq, arith,
  Bool-cases, Option-cases, is_some, find, count_where, count_where-append, All, All-append,
  All-map,
}
use mathlib.Core.Path.{subst}
use agent_resilience_runtime.Prelude.Rows.{All-keeps}
use agent_resilience_runtime.Exec.{Result, ok, err}
use agent_resilience_runtime.Models.{WorkflowState, QueueDelivery}
use agent_resilience_runtime.Store.Tables.{World, QueueRow}
use agent_resilience_runtime.Store.Checkpoints.{
  create_workflow, workflow_row, insert_delivery, new_delivery,
}
use agent_resilience_runtime.Store.Queue.{
  enqueue, active_delivery, update_queue, claim, release_expired, is_expired, release,
  next_delivery, is_pending_id, take_lease, acknowledge, has_id, finish, extend_lease,
  is_processing_id, renew, put_back, retry_or_dead_letter, retry_delay,
}
use agent_resilience_runtime.Store.Queue.Claim.{HasUniqueIds, update_queue-HasUniqueIds}
use agent_resilience_runtime.Store.DeadLetters.{
  replay_dead_letter, is_dead_letter, is_dead_id, revive,
}
use agent_resilience_runtime.Store.Frame.{
  save_workflow-Same, record_event-Same, create_approval-Same, resolve_approval-Same,
  save_tool_result-Same,
}
use agent_resilience_runtime.Store.Trace.{Operation, perform, perform_all}

-- The queue, and the id that its next row takes.
abbrev rows_of : World → List QueueRow × ℕ
rows_of w = (w.queue, w.next_id)

pub record IsNumbered (w : World) : Type 0 where
  pub ids : HasUniqueIds w
  pub below : All (λ r. r.id < w.next_id) w.queue

same_rows : (w w' : World) → rows_of w' ≡ rows_of w → IsNumbered w → IsNumbered w'
same_rows w w' e k =
    let q : w'.queue ≡ w.queue = ap (λ p. p.0) e in
    let n : w'.next_id ≡ w.next_id = ap (λ p. p.1) e in
    record { ids = record { unique = rw q k.ids.unique }; below = rw (q, n) k.below }

update_queue-IsNumbered :
    (p : QueueRow → Bool) (f : QueueRow → QueueRow) (w : World)
    → ((r : QueueRow) → (f r).id ≡ r.id)
    → IsNumbered w
    → IsNumbered (update_queue p f w)
update_queue-IsNumbered p f w keeps k = record {
  ids = update_queue-HasUniqueIds p f w keeps k.ids;
  below = All-keeps (λ r. r.id < w.next_id) p f (λ r h. rw (keeps r) h) w.queue k.below;
}

none_above :
    (n : ℕ) (rows : List QueueRow) → All (λ r. r.id < n) rows → count_where (has_id n) rows ≡ 0
none_above n [] all = refl
none_above n (r ∷ rows) (here, rest) = ground (arith, none_above n rows rest)

insert_delivery-IsNumbered :
    (id : String) (max : ℕ) (w : World) → IsNumbered w → IsNumbered (insert_delivery id max w)
insert_delivery-IsNumbered id max w k = record {
  ids = record {
    unique = λ i. subst (λ n. n ≤ 1) (sym (count_where-append (has_id i) w.queue _)) (one i);
  };
  below =
      All-append (λ r. r.id < w.next_id + 1) w.queue _
        (All-map (λ r h. omega arith) w.queue k.below) (omega arith, tt);
}
  where
    one :
        (i : ℕ)
        → count_where (has_id i) w.queue + count_where (has_id i) (new_delivery id max w ∷ []) ≤ 1
    one i = ground (arith, k.ids.unique i, none_above w.next_id w.queue k.below)

create_workflow-IsNumbered :
    (s : WorkflowState) (max : ℕ) (w : World)
    → IsNumbered w
    → IsNumbered (create_workflow s max w).1
unfolding create_workflow
create_workflow-IsNumbered s max w k = elim (Bool-cases (is_some (workflow_row s.task_id w))) [
  | inl known ↦ rw known k
  | inr new ↦ rw new (
      same_rows (insert_delivery s.task_id max w) _ refl
        (insert_delivery-IsNumbered s.task_id max w k))
]

enqueue-IsNumbered :
    (id : String) (max : ℕ) (w : World) → IsNumbered w → IsNumbered (enqueue id max w).1
unfolding enqueue
enqueue-IsNumbered id max w k = elim (Option-cases (active_delivery id w)) [
  | inl fresh ↦ elim (Bool-cases (is_some (workflow_row id w))) [
    | inl known ↦ rw (fresh, known) (insert_delivery-IsNumbered id max w k)
    | inr unknown ↦ rw (fresh, unknown) k
  ]
  | inr (r, old) ↦ rw old k
]

claim-IsNumbered :
    (worker : String) (lease : ℕ) (w : World) → IsNumbered w → IsNumbered (claim worker lease w).1
unfolding claim
claim-IsNumbered worker lease w k =
    let k' = update_queue-IsNumbered (is_expired w.now) (release w.now) w (λ r. refl) k in
    elim (Option-cases (next_delivery (release_expired w))) [
      | inl nothing ↦ rw nothing k'
      | inr (r, next) ↦ rw next (
          update_queue-IsNumbered (is_pending_id r.id)
            (take_lease (r.attempts + 1) worker (w.now + lease) w.now) (release_expired w)
            (λ q. refl) k')
    ]

acknowledge-IsNumbered : (i : ℕ) (w : World) → IsNumbered w → IsNumbered (acknowledge i w).1
unfolding acknowledge
acknowledge-IsNumbered i w = update_queue-IsNumbered (has_id i) (finish w.now) w (λ r. refl)

extend_lease-IsNumbered :
    (d : QueueDelivery) (lease : ℕ) (w : World)
    → IsNumbered w
    → IsNumbered (extend_lease d lease w).1
unfolding extend_lease
extend_lease-IsNumbered d lease w =
    update_queue-IsNumbered (is_processing_id d.id) (renew (w.now + lease) w.now) w (λ r. refl)

put_back-IsNumbered :
    (d : QueueDelivery) (why : String) (r : Result ℕ) (w : World)
    → IsNumbered w
    → IsNumbered (put_back d why r w).1
put_back-IsNumbered d why (err e) w k = k
put_back-IsNumbered d why (ok delay) w k = update_queue-IsNumbered (has_id d.id) _ w (λ r. refl) k

retry-IsNumbered :
    (d : QueueDelivery) (why : String) (base : ℕ) (w : World)
    → IsNumbered w
    → IsNumbered (retry_or_dead_letter d why base w).1
unfolding retry_or_dead_letter
retry-IsNumbered d why base w = put_back-IsNumbered d why (retry_delay base d.attempts) w

replay-IsNumbered :
    (i : ℕ) (id : String) (max : ℕ) (actor why : String) (w : World)
    → IsNumbered w
    → IsNumbered (replay_dead_letter i id max actor why w).1
unfolding replay_dead_letter
replay-IsNumbered i id max actor why w k =
    elim (Option-cases (find (is_dead_letter i id) w.queue)) [
      | inl nothing ↦ rw nothing k
      | inr (q, found) ↦ elim (Option-cases (workflow_row q.task_id w)) [
        | inl lost ↦ rw (found, lost) k
        | inr (r, known) ↦
            rw (found, known)
              (same_rows (update_queue (is_dead_id i) (revive max w.now) w) _ refl
                (update_queue-IsNumbered (is_dead_id i) (revive max w.now) w (λ x. refl) k))
      ]
    ]

perform-IsNumbered : (o : Operation) (w : World) → IsNumbered w → IsNumbered (perform o w)
perform-IsNumbered (Operation.create s max) w = create_workflow-IsNumbered s max w
perform-IsNumbered (Operation.enqueue_task id max) w = enqueue-IsNumbered id max w
perform-IsNumbered (Operation.claim_next worker lease) w = claim-IsNumbered worker lease w
perform-IsNumbered (Operation.acknowledge_id i) w = acknowledge-IsNumbered i w
perform-IsNumbered (Operation.extend d lease) w = extend_lease-IsNumbered d lease w
perform-IsNumbered (Operation.retry d why base) w = retry-IsNumbered d why base w
perform-IsNumbered (Operation.replay i id max actor why) w = replay-IsNumbered i id max actor why w
perform-IsNumbered (Operation.save s v) w =
    same_rows w _ ((save_workflow-Same rows_of (record { skip = λ u x. refl }) s v).at w)
perform-IsNumbered (Operation.event id e) w =
    same_rows w _ ((record_event-Same rows_of (record { skip = λ u x. refl }) id e).at w)
perform-IsNumbered (Operation.store_result hash key id t a v) w =
    same_rows w _
      ((save_tool_result-Same rows_of (record { skip = λ u x. refl }) hash key id t a v).at w)
perform-IsNumbered (Operation.new_approval id action) w =
    same_rows w _ ((create_approval-Same rows_of (record { skip = λ u x. refl }) id action).at w)
perform-IsNumbered (Operation.decide id action approved actor why) w = same_rows w _ (
    (resolve_approval-Same rows_of (record { skip = λ u x. refl }) id action approved actor why).at
      w)
perform-IsNumbered (Operation.call c) w = same_rows w _ refl
perform-IsNumbered Operation.ask w = same_rows w _ refl
perform-IsNumbered (Operation.wait n) w = same_rows w _ refl

-- Whatever operations run, in any order, no two rows of the queue have one id, and every id is
-- below the one that the next row takes.
pub perform_all-IsNumbered :
    (os : List Operation) (w : World) → IsNumbered w → IsNumbered (perform_all os w)
perform_all-IsNumbered [] w k = k
perform_all-IsNumbered (o ∷ os) w k =
    perform_all-IsNumbered os (perform o w) (perform-IsNumbered o w k)
