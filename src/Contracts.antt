-- ===== src/Contracts.antt =====
-- agent_resilience/contracts.py: `get_workflow` and `save_workflow` of `RuntimeStore` as an interface.
-- The protocol has their signatures only; the laws are what its clients, runtime.py and worker.py, rely
-- on. Race has such clients: several workers that read and save.
pub mod Race
pub mod Sqlite
pub mod Aws
use mathlib.Core.Option
use agent_resilience_runtime.Prelude.{
  ℕ, ◌+◌, ◌≤◌, String, Bool, true, false, Option, none, some, List, [], ◌∷◌, ◌≡◌, ◌⊎◌, inl, inr,
  ◌==◌, string_eq, if◌then◌else◌, arith, Bool-cases, sym, ◌∙◌, refl, ap,
}
use agent_resilience_runtime.Exec.{Exec, Result, ok, err, Failure}
use agent_resilience_runtime.Models.{WorkflowState}

abbrev pub version_of : Option WorkflowState → Option ℕ
version_of none = none
version_of (some x) = some x.version

module _ {S : Type 0} (IsOk : S → Type 0) (stored : String → S → Option WorkflowState) where
  -- No checkpoint changed.
  pub record Same (s t : S) : Type 0 where
    pub still_ok : IsOk t
    pub kept : (id : String) → stored id t ≡ stored id s

  -- The checkpoint `r`, which is `x` but for its version and its time, replaced the one of version `v`.
  pub record Written (x : WorkflowState) (v : ℕ) (r : WorkflowState) (s t : S) : Type 0 where
    pub still_ok : IsOk t
    pub fresh : version_of (stored x.task_id s) ≡ some v
    pub next : r.version ≡ v + 1
    pub carries : r ≡ record x { version = v + 1; updated_at = r.updated_at }
    pub now_stored : stored x.task_id t ≡ some r
    pub others : (id : String) → (x.task_id == id) ≡ false → stored id t ≡ stored id s

  -- A save that fails may have written, for the answer may be lost.
  pub record IsCheckpointStore (get : String → Exec S (Option WorkflowState))
      (save : WorkflowState → ℕ → Exec S WorkflowState) : Type 0 where
    pub reads :
        (id : String) (s t : S) (o : Option WorkflowState)
        → IsOk s
        → get id s ≡ (ok o, t)
        → o ≡ stored id s
    pub read_keeps : (id : String) (s : S) → IsOk s → Same s (get id s).1
    pub saves :
        (x : WorkflowState) (v : ℕ) (s t : S) (r : WorkflowState)
        → IsOk s
        → save x v s ≡ (ok r, t)
        → Written x v r s t
    pub fails :
        (x : WorkflowState) (v : ℕ) (s t : S) (e : Failure)
        → IsOk s
        → save x v s ≡ (err e, t)
        → Same s t ⊎ ((r : WorkflowState) × Written x v r s t)
