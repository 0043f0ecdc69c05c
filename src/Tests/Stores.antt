-- ===== src/Tests/Stores.antt =====
-- Instances of the theorems on agent_resilience/store.py.
use agent_resilience_runtime.Prelude.{
  ℕ, ◌^◌, ◌-◌, ◌+◌, ◌*◌, ◌≤◌, Bool-cases, inl, inr, count_where, ◌<◌, true, false, none, some, List,
  [], ◌∷◌, ◌≡◌, ◌≢◌, ◌⊎◌, ◌++◌, refl, arith, min, All, is_some, ◌==◌, string_eq, nat_eq,
}
use mathlib.Core.Path.{subst}
use agent_resilience_runtime.Exec.{ok, err, value_error, concurrent_update}
use agent_resilience_runtime.Models.{WorkflowState, new_workflow, running, QueueDelivery}
use agent_resilience_runtime.Store.{
  World, QueueRow, QueueStatus, ApprovalRow, ApprovalStatus, EventBody, save_workflow,
  next_checkpoint, update_workflow, new_delivery, claim, enqueue, workflow_row, has_task,
  retry_delay, overflow_error, second, retry_or_dead_letter, is_exhausted, stored_error,
  resolve_approval,
}
use agent_resilience_runtime.Store.Checkpoints.Lock.{
  IsKeyed, stale, save_workflow-compare_and_swap, save_workflow-excludes,
}
use agent_resilience_runtime.Store.Queue.Claim.{
  HasUniqueIds, IsClaimed, IsReady, row_of, claim-oldest, claim-excludes,
}
use agent_resilience_runtime.Store.Queue.Single.{IsSingle, active_count, enqueue-IsSingle}
use agent_resilience_runtime.Store.Queue.Retry.{retry_delay-bounds, retry_or_dead_letter-decides}
use agent_resilience_runtime.Store.Approvals.Once.{resolve_approval-once}
use agent_resilience_runtime.Store.Trace.{Operation, perform_all}
use agent_resilience_runtime.Store.Trace.Audit.{Extends, perform_all-Extends}
use agent_resilience_runtime.Store.Trace.Verdicts.{IsDecided, perform_all-IsDecided}
use agent_resilience_runtime.Tests.Fixture.{empty_world}

abbrev pub job : WorkflowState
job = new_workflow "i1" "find the fault" "checkout-pool-exhaustion" 1000

abbrev pub other_job : WorkflowState
other_job = new_workflow "i2" "find the fault" "checkout-pool-exhaustion" 1000

-- Two workflows, each with a delivery.
abbrev pub stored : World
stored = record empty_world {
  workflows =
      record { task_id = "i1"; state = job; version = 0; updated_at = 1000 }
      ∷ record { task_id = "i2"; state = other_job; version = 0; updated_at = 1000 }
      ∷ [];
  queue =
      new_delivery "i1" 5 empty_world ∷ record (new_delivery "i2" 5 empty_world) { id = 2 } ∷ [];
  next_id = 3;
  approvals =
      record {
        task_id = "i1";
        action_id = "a";
        status = ApprovalStatus.pending;
        actor = none;
        reason = none;
        created_at = 1000;
        resolved_at = none;
      }
      ∷ record {
        task_id = "i2";
        action_id = "b";
        status = ApprovalStatus.approved;
        actor = some "oncall";
        reason = none;
        created_at = 1000;
        resolved_at = some 1000;
      }
      ∷ [];
}

pub stored-IsKeyed : IsKeyed stored
stored-IsKeyed = record {
  unique = λ id. elim (Bool-cases ("i1" == id)) [
    | inl e ↦
        subst (λ x. count_where (has_task x) stored.workflows ≤ 1) ((string_eq.beq_iff "i1" id).0 e)
          (omega arith)
    | inr e ↦ rw e (ground arith)
  ];
}

stored-HasUniqueIds : HasUniqueIds stored
stored-HasUniqueIds = record { unique = λ i. ground arith }

stored-IsSingle : IsSingle stored
stored-IsSingle = record {
  at_most_one = λ id. elim (Bool-cases ("i1" == id)) [
    | inl e ↦ subst (λ x. active_count x stored ≤ 1) ((string_eq.beq_iff "i1" id).0 e) (omega arith)
    | inr e ↦ rw e (ground arith)
  ];
}

save_workflow-compare_and_swap_example :
    let n : WorkflowState = record job { version = 1; updated_at = 1000 } in
    save_workflow job 0 stored ≡ (
      ok n,
      record stored {
        workflows =
            record { task_id = "i1"; state = n; version = 1; updated_at = 1000 }
            ∷ record { task_id = "i2"; state = other_job; version = 0; updated_at = 1000 }
            ∷ [];
      },
    )
save_workflow-compare_and_swap_example = save_workflow-compare_and_swap job 0 stored stored-IsKeyed

abbrev begun : WorkflowState
begun = record job { status = running }

save_workflow-excludes_example :
    save_workflow begun 0 (update_workflow (next_checkpoint job 0 stored) 0 stored) ≡ (
      err (concurrent_update (stale "i1")),
      update_workflow (next_checkpoint job 0 stored) 0 stored,
    )
unfolding save_workflow
save_workflow-excludes_example = save_workflow-excludes job begun 0 stored stored-IsKeyed refl refl

abbrev pub first_delivery : QueueDelivery
first_delivery = record { id = 1; task_id = "i1"; attempts = 1; max_attempts = 5 }

abbrev second_delivery : QueueDelivery
second_delivery = record { id = 2; task_id = "i2"; attempts = 1; max_attempts = 5 }

-- The first claim's world, and the second's.
abbrev pub held : World
held = (claim "w1" 60 stored).1

-- Another delivery is enqueued between the claims.
abbrev noted : World
noted = record held { queue = held.queue ++ record (new_delivery "i3" 5 held) { id = 3 } ∷ [] }

noted-HasUniqueIds : HasUniqueIds noted
unfolding claim
noted-HasUniqueIds = record { unique = λ i. ground arith }

abbrev both_held : World
both_held = (claim "w2" 60 noted).1

claim-oldest_example :
    ((some first_delivery ≡ none) × All (λ q. IsReady 1000 q → ⊥) stored.queue)
    ⊎ ((d : QueueDelivery) × (some first_delivery ≡ some d) × IsClaimed "w1" 60 stored d held)
unfolding claim
claim-oldest_example =
    claim-oldest "w1" 60 stored held (some first_delivery) stored-HasUniqueIds refl

claim-excludes_example : second_delivery.id ≢ first_delivery.id
unfolding claim
claim-excludes_example =
    claim-excludes "w1" "w2" 60 60 stored held noted both_held first_delivery second_delivery
      stored-HasUniqueIds noted-HasUniqueIds refl refl (omega arith) refl

enqueue-IsSingle_example :
    IsSingle (enqueue "i1" 5 stored).1
    × (is_some (workflow_row "i1" stored) ≡ true → active_count "i1" (enqueue "i1" 5 stored).1 ≡ 1)
enqueue-IsSingle_example = enqueue-IsSingle "i1" 5 stored stored-IsSingle

retry_delay-bounds_example :
    (1_024 < 3 → retry_delay 1_000_000 3 ≡ err overflow_error)
    × (3 ≤ 1_024 → (delay : ℕ) × (retry_delay 1_000_000 3 ≡ ok delay) × (delay ≤ 60 * second))
    × (retry_delay 1_000_000 1 ≡ ok (min (60 * second) 1_000_000))
    × ((delay later : ℕ)
        → retry_delay 1_000_000 3 ≡ ok delay
        → retry_delay 1_000_000 (3 + 1) ≡ ok later
        → delay ≤ later)
retry_delay-bounds_example = retry_delay-bounds 1_000_000 3

abbrev pub spent : QueueDelivery
spent = record { id = 1; task_id = "i1"; attempts = 5; max_attempts = 5 }

abbrev pub row : QueueRow
row = new_delivery "i1" 5 empty_world

retry_or_dead_letter-decides_example :
    let (answer, w') = retry_or_dead_letter spent "timeout" 1_000_000 stored in
    (1_024 < 5 → (answer ≡ err overflow_error) × (w' ≡ stored))
    × (5 ≤ 1_024 → answer ≡ ok (is_exhausted spent))
    × (5 ≤ 1_024
        → 5 ≤ 5
        → row_of 1 w'
          ≡ some (record row {
            status = QueueStatus.dead;
            available_at = 1000;
            lease_until = none;
            worker_id = none;
            last_error = some (stored_error "timeout");
            updated_at = 1000;
          }))
    × (5 ≤ 1_024
        → 5 < 5
        → row_of 1 w'
          ≡ some (record row {
            status = QueueStatus.pending;
            available_at = 1000 + min (60 * second) (1_000_000 * 2 ^ (5 - 1));
            lease_until = none;
            worker_id = none;
            last_error = some (stored_error "timeout");
            updated_at = 1000;
          }))
retry_or_dead_letter-decides_example =
    retry_or_dead_letter-decides spent "timeout" 1_000_000 stored row refl

resolve_approval-once_example :
    let w' = (resolve_approval "i1" "a" true "oncall" none stored).1 in
    resolve_approval "i1" "a" false "intruder" none w'
    ≡ (err (value_error "approval is not pending"), w')
resolve_approval-once_example =
    resolve_approval-once "i1" "a" true false "oncall" "intruder" none none stored

abbrev trace : List Operation
trace =
    Operation.claim_next "w1" 60
    ∷ Operation.event "i1" (EventBody.approval_granted "oncall" none)
    ∷ Operation.decide "i2" "b" false "intruder" none
    ∷ Operation.save job 0
    ∷ Operation.acknowledge_id 1
    ∷ []

perform_all-Extends_example : Extends stored (perform_all trace stored)
perform_all-Extends_example = perform_all-Extends trace stored

abbrev verdict_row : ApprovalRow
verdict_row = record {
  task_id = "i2";
  action_id = "b";
  status = ApprovalStatus.approved;
  actor = some "oncall";
  reason = none;
  created_at = 1000;
  resolved_at = some 1000;
}

perform_all-IsDecided_example : IsDecided "i2" "b" verdict_row (perform_all trace stored)
perform_all-IsDecided_example =
    perform_all-IsDecided trace "i2" "b" verdict_row stored
      (record { stored = refl; settled = refl })
