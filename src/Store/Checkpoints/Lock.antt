-- ===== src/Store/Checkpoints/Lock.antt =====
-- `save_workflow` of agent_resilience/store.py and the checkpoint's version.
use Prim.Native.String.{◌++◌ as concat}
use mathlib.Core.Option
use agent_resilience_runtime.Prelude.{
  ℕ, ◌+◌, ◌≤◌, String, true, false, Option, none, some, List, [], ◌∷◌, ◌≡◌, refl, ◌==◌, string_eq,
  nat_eq, nat_beq, nat_beq_iff, option_beq, if◌then◌else◌, find, update_where, ◌&&◌, count_where,
  arith, Bool-cases, inl, inr, sym, ◌∙◌,
}
use agent_resilience_runtime.Prelude.Rows.{
  find-update_where, find_sound, count-update_where, count-le-of_imp,
}
use agent_resilience_runtime.Exec.{ok, err, concurrent_update}
use agent_resilience_runtime.Models.{WorkflowState}
use agent_resilience_runtime.Store.Tables.{World, WorkflowRow}
use agent_resilience_runtime.Store.Checkpoints.{
  has_task, workflow_row, is_checkpoint, write_state, update_workflow, next_checkpoint,
  save_workflow,
}

-- No two rows have one `task_id`: the table's primary key.
pub record IsKeyed (w : World) : Type 0 where
  pub unique : (id : String) → count_where (has_task id) w.workflows ≤ 1

-- The version of the stored checkpoint.
abbrev pub version_of : Option WorkflowRow → Option ℕ
version_of none = none
version_of (some r) = some r.version

abbrev pub current_version : String → World → Option ℕ
current_version id w = version_of (workflow_row id w)

-- Of the one row of a key, the update counts it exactly if it has the version that is expected.
count-is_checkpoint :
    (id : String) (v : ℕ) (rows : List WorkflowRow)
    → count_where (has_task id) rows ≤ 1
    → (count_where (is_checkpoint id v) rows == 1)
      ≡ option_beq (version_of (find (has_task id) rows)) (some v)
count-is_checkpoint id v [] h = refl
count-is_checkpoint id v (r ∷ rows) h = ground (
  arith,
  count-is_checkpoint id v rows,
  count-le-of_imp (is_checkpoint id v) (has_task id) (λ x e. sub x e) rows,
)
  where
    sub : (x : WorkflowRow) → is_checkpoint id v x ≡ true → has_task id x ≡ true
    sub x e = ground arith

abbrev pub stale : String → String
stale id = concat "stale checkpoint for " id

-- Where each workflow has at most one row, a save succeeds exactly if the stored version is the
-- expected one: it then puts the state, with the next version and the time of the save, into the row
-- of that workflow and version, leaves everything else alone and returns that state. Otherwise it
-- raises `ConcurrentUpdateError` and leaves every table alone.
pub save_workflow-compare_and_swap :
    (s : WorkflowState) (v : ℕ) (w : World)
    → IsKeyed w
    → let n : WorkflowState = record s { version = v + 1; updated_at = w.now } in
      save_workflow s v w ≡ (
        if option_beq (current_version s.task_id w) (some v)
        then (
          ok n,
          record w {
            workflows =
                update_where
                  (λ r. r.task_id == s.task_id && r.version == v)
                  (λ r. record r { state = n; version = v + 1; updated_at = w.now })
                  w.workflows;
          },
        )
        else (err (concurrent_update (stale s.task_id)), w))
unfolding save_workflow
save_workflow-compare_and_swap s v w k =
    ground (arith, count-is_checkpoint s.task_id v w.workflows (k.unique s.task_id))

-- The workflow's own row holds what a save has written.
pub workflow_row-update :
    (s : WorkflowState) (v : ℕ) (id : String) (w : World)
    → workflow_row id (update_workflow s v w)
      ≡ Option.map
          (λ r. if is_checkpoint s.task_id v r then write_state s r else r)
          (workflow_row id w)
workflow_row-update s v id w =
    find-update_where (has_task id) (is_checkpoint s.task_id v) (write_state s) (λ r. refl)
      w.workflows

pub update_workflow-IsKeyed :
    (s : WorkflowState) (v : ℕ) (w : World) → IsKeyed w → IsKeyed (update_workflow s v w)
update_workflow-IsKeyed s v w k = record {
  unique = λ id.
      rw
        (count-update_where (has_task id) (is_checkpoint s.task_id v) (write_state s) (λ r. refl)
          w.workflows)
        (k.unique id);
}

option_beq-some : (o : Option ℕ) (v : ℕ) → option_beq o (some v) ≡ true → o ≡ some v
option_beq-some none v h = cc
option_beq-some (some a) v h = ground (arith, nat_beq_iff a v)

-- What a save that succeeded has met and done.
pub record Saved (s : WorkflowState) (v : ℕ) (w : World) (r : WorkflowState) (w' : World)
    : Type 0 where
  pub fresh : current_version s.task_id w ≡ some v
  pub returned : r ≡ next_checkpoint s v w
  pub written : w' ≡ update_workflow (next_checkpoint s v w) v w

pub save_workflow-Saved :
    (s : WorkflowState) (v : ℕ) (w : World) {r : WorkflowState} {w' : World}
    → IsKeyed w
    → save_workflow s v w ≡ (ok r, w')
    → Saved s v w r w'
save_workflow-Saved s v w {r} {w'} k h =
    elim (Bool-cases (option_beq (current_version s.task_id w) (some v))) [
      | inl fresh ↦
          let e = sym (rw fresh at (save_workflow-compare_and_swap s v w k)) ∙ h in
          record { fresh = option_beq-some _ v fresh; returned = cc e; written = cc e }
      | inr old ↦
          let e = sym (rw old at (save_workflow-compare_and_swap s v w k)) ∙ h in absurd (cc e)
    ]

-- The stored version of a workflow whose checkpoint `r` is replaced.
version-write :
    (s : WorkflowState) (v : ℕ) (o : Option WorkflowRow)
    → ((r : WorkflowRow) → o ≡ some r → has_task s.task_id r ≡ true)
    → version_of o ≡ some v
    → version_of (Option.map (λ r. if is_checkpoint s.task_id v r then write_state s r else r) o)
      ≡ some s.version
version-write s v none found h = cc
version-write s v (some r) found h = ground (arith, found r refl, nat_beq_iff r.version v)

pub current_version-update :
    (s : WorkflowState) (v : ℕ) (w : World)
    → current_version s.task_id w ≡ some v
    → current_version s.task_id (update_workflow s v w) ≡ some s.version
current_version-update s v w h =
    rw (workflow_row-update s v s.task_id w)
      (version-write s v (workflow_row s.task_id w) (find_sound (has_task s.task_id) w.workflows) h)

succ_beq : (v : ℕ) → nat_beq (v + 1) v ≡ false
succ_beq v = ground arith

-- Of two workers that loaded one checkpoint, the second to save is refused: where each workflow
-- has at most one row, after a save that succeeded, a save of the same workflow that expects the
-- same version raises `ConcurrentUpdateError` and leaves every table alone.
pub save_workflow-excludes :
    (s t : WorkflowState) (v : ℕ) (w : World) {r : WorkflowState} {w' : World}
    → IsKeyed w
    → t.task_id ≡ s.task_id
    → save_workflow s v w ≡ (ok r, w')
    → save_workflow t v w' ≡ (err (concurrent_update (stale t.task_id)), w')
save_workflow-excludes s t v w {r} {w'} k same saved =
    let done = save_workflow-Saved s v w k saved in
    let k' : IsKeyed w' = rw done.written (update_workflow-IsKeyed (next_checkpoint s v w) v w k) in
    let moved : current_version t.task_id w' ≡ some (v + 1) =
      rw (done.written, same) (current_version-update (next_checkpoint s v w) v w done.fresh) in
    save_workflow-compare_and_swap t v w' k' ∙ rw (moved, succ_beq v) refl
