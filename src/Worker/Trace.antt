-- ===== src/Worker/Trace.antt =====
-- `DurableWorker.run_once` and the heartbeat of agent_resilience/worker.py as sequences of
-- operations.
use agent_resilience_runtime.Prelude.{String, Option, none, some}
use agent_resilience_runtime.Exec.{Result, ok, err, Failure}
use agent_resilience_runtime.Exec.Keeps.{Moves}
use agent_resilience_runtime.Models.{WorkflowState, QueueDelivery}
use agent_resilience_runtime.Store.Trace.{Reaches, reach_rules}
use agent_resilience_runtime.Runtime.{WorkflowRuntime}
use agent_resilience_runtime.Runtime.Trace.{process-Reaches}
use agent_resilience_runtime.Worker.{
  Settings, heartbeat, dead_letter_state, fail_state, on_retryable, on_permanent, enqueue_next,
  deliver, handle, run_delivery, run_once,
}

dead_letter_state-Reaches :
    (o : Option WorkflowState) (why : String) → Moves Reaches (dead_letter_state o why)
dead_letter_state-Reaches none why = search reach_rules
dead_letter_state-Reaches (some s) why = search reach_rules

fail_state-Reaches : (o : Option WorkflowState) (why : String) → Moves Reaches (fail_state o why)
fail_state-Reaches none why = search reach_rules
fail_state-Reaches (some s) why = search reach_rules

module _ (config : Settings) where
  pub heartbeat-Reaches :
      (worker : String) (d : QueueDelivery) → Moves Reaches (heartbeat config worker d)
  unfolding heartbeat
  heartbeat-Reaches worker d = search reach_rules

  on_retryable-Reaches :
      (d : QueueDelivery) (why : String) → Moves Reaches (on_retryable config d why)
  unfolding on_retryable
  on_retryable-Reaches d why = search (reach_rules, dead_letter_state-Reaches)

  on_permanent-Reaches : (d : QueueDelivery) (why : String) → Moves Reaches (on_permanent d why)
  unfolding on_permanent
  on_permanent-Reaches d why = search (reach_rules, fail_state-Reaches)

  enqueue_next-Reaches : (s : WorkflowState) → Moves Reaches (enqueue_next config s)
  enqueue_next-Reaches s = search reach_rules

  module _ (runtime : WorkflowRuntime) where
    deliver-Reaches : (d : QueueDelivery) → Moves Reaches (deliver runtime config d)
    unfolding deliver
    deliver-Reaches d = search (reach_rules, process-Reaches, enqueue_next-Reaches)

    handle-Reaches :
        (d : QueueDelivery) (r : Result (Unit {0})) → Moves Reaches (handle runtime config d r)
    handle-Reaches d (ok x) = search reach_rules
    handle-Reaches d (err (Failure.permanent m)) = search (reach_rules, on_permanent-Reaches)
    handle-Reaches d (err e) = search (reach_rules, on_retryable-Reaches)

    run_delivery-Reaches :
        (o : Option QueueDelivery) → Moves Reaches (run_delivery runtime config o)
    run_delivery-Reaches none = search reach_rules
    run_delivery-Reaches (some d) = search (reach_rules, deliver-Reaches, handle-Reaches)

    -- One round of a worker, whatever it returns or raises, leaves the world as some sequence of
    -- the store's operations, calls of the backend and questions to the engine would leave it.
    pub run_once-Reaches : (worker : String) → Moves Reaches (run_once runtime config worker)
    unfolding run_once
    run_once-Reaches worker = search (reach_rules, run_delivery-Reaches)
