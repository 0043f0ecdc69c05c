-- ===== src/System.antt =====
-- The worlds that the whole program can bring about: agent_resilience/worker.py,
-- agent_resilience/api.py and agent_resilience/store.py together, from empty tables.
use agent_resilience_runtime.Prelude.{ℕ, [], arith}
use mathlib.Core.Path.{subst}
use agent_resilience_runtime.Exec.Keeps.{Moves}
use agent_resilience_runtime.Store.{World, Run}
use agent_resilience_runtime.Store.Trace.{Reaches, Reaches-IsPreorder}
use agent_resilience_runtime.Store.Trace.Sound.{IsSound, perform_all-IsSound}
use agent_resilience_runtime.Store.Trace.Numbers.{IsNumbered, perform_all-IsNumbered}

-- The tables that `initialize` creates, at some time.
abbrev pub initial : ℕ → World
initial now = record {
  workflows = [];
  queue = [];
  next_id = 1;
  events = [];
  tool_results = [];
  approvals = [];
  now = now;
  calls = [];
  asks = 0;
}

pub record IsReachable (w : World) : Type 0 where
  pub start : ℕ
  pub reached : Reaches (initial start) w

pub record IsConsistent (w : World) : Type 0 where
  pub checkpoints : IsSound w
  pub deliveries : IsNumbered w

initial-IsConsistent : (now : ℕ) → IsConsistent (initial now)
initial-IsConsistent now = record {
  checkpoints = record { keyed = record { unique = λ id. omega arith }; agrees = tt };
  deliveries = record { ids = record { unique = λ i. omega arith }; below = tt };
}

-- In every world that some interleaving of the store's operations reaches from empty tables, each
-- workflow has at most one checkpoint, whose columns `task_id` and `version` are those of the stored
-- state, no two rows of the queue have one id, and every id is below the one that the next row takes.
pub reachable-IsConsistent : (w : World) → IsReachable w → IsConsistent w
reachable-IsConsistent w k =
    let begin_ = initial-IsConsistent k.start in
    subst IsConsistent k.reached.arrives (record {
      checkpoints = perform_all-IsSound k.reached.trace (initial k.start) begin_.checkpoints;
      deliveries = perform_all-IsNumbered k.reached.trace (initial k.start) begin_.deliveries;
    })

-- A call that only performs operations of the store leads from a reachable world to another.
pub Reaches-IsReachable :
    {A : Type 0} (m : Run A) (w : World) → Moves Reaches m → IsReachable w → IsReachable (m w).1
Reaches-IsReachable m w h k = record {
  start = k.start;
  reached = Reaches-IsPreorder.then_ (initial k.start) w (m w).1 k.reached (h.at w);
}
