-- ===== src/Store/Lists.antt =====
-- agent_resilience/store.py: `list_workflows` and `list_dead_letters`. SQLite leaves the order of rows
-- with one `updated_at` open; here it is the table's.
use agent_resilience_runtime.Prelude.{
  ℕ, min, max, Bool, true, Option, none, some, List, [], ◌∷◌, map, take, select, ◌==◌,
  if◌then◌else◌, leb, is_some,
}
use agent_resilience_runtime.Exec.{gets}
use agent_resilience_runtime.Models.{WorkflowState, WorkflowStatus, status_eq}
use agent_resilience_runtime.Store.Tables.{
  World, WorkflowRow, QueueRow, QueueStatus, queue_status_eq, Run,
}

-- `max(1, min(limit, most))`
abbrev pub bounded : ℕ → ℕ → ℕ
bounded limit most = max 1 (min limit most)

module _ {A : Type 0} (updated_at : A → ℕ) where
  abbrev pub place : A → List A → List A
  place x [] = x ∷ []
  place x (y ∷ ys) = if leb (updated_at y) (updated_at x) then x ∷ y ∷ ys else y ∷ place x ys

  -- `ORDER BY updated_at DESC`
  abbrev pub newest_first : List A → List A
  newest_first [] = []
  newest_first (x ∷ xs) = place x (newest_first xs)

-- `status is None or state.status == status`
abbrev pub has_status_of : Option WorkflowStatus → WorkflowState → Bool
has_status_of none s = true
has_status_of (some status) s = s.status == status

abbrev pub newest_workflows : ℕ → World → List WorkflowState
newest_workflows n w =
    map (λ r. r.state) (take n (newest_first (λ (r : WorkflowRow). r.updated_at) w.workflows))

unfoldable pub list_workflows : ℕ → Option WorkflowStatus → Run (List WorkflowState)
list_workflows limit status = gets (λ w. take (bounded limit 500) (
    select (has_status_of status)
      (newest_workflows (if is_some status then 500 else bounded limit 500) w)))

abbrev pub is_dead : QueueRow → Bool
is_dead r = r.status == QueueStatus.dead

unfoldable pub list_dead_letters : ℕ → Run (List QueueRow)
list_dead_letters limit = gets (λ w.
    take (bounded limit 100)
      (newest_first (λ (r : QueueRow). r.updated_at) (select is_dead w.queue)))
