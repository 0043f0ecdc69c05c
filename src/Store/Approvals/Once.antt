-- ===== src/Store/Approvals/Once.antt =====
-- `resolve_approval` of agent_resilience/store.py on an approval that has been decided.
use agent_resilience_runtime.Prelude.{
  ℕ, String, Bool, true, false, Option, ◌≡◌, ◌==◌, string_eq, nat_eq, count_where, update_where,
  arith, Bool-cases, inl, inr,
}
use agent_resilience_runtime.Prelude.Rows.{update_where-of-count-zero, count-update_where_self}
use agent_resilience_runtime.Exec.{err, value_error}
use agent_resilience_runtime.Store.Tables.{World, ApprovalRow}
use agent_resilience_runtime.Store.Approvals.{resolve_approval, is_pending_approval, resolve}

-- The number of pending approvals of an action.
abbrev pub pending_count : String → String → World → ℕ
pending_count id action w = count_where (is_pending_approval id action) w.approvals

once_decided :
    (id action : String) (approved : Bool) (actor : String) (why : Option String) (now : ℕ)
    (r : ApprovalRow)
    → is_pending_approval id action r ≡ true
    → is_pending_approval id action (resolve approved actor why now r) ≡ false
once_decided id action approved actor why now r h = ground arith

-- Where no approval of the action is pending, a verdict is refused and nothing changes.
pub resolve_approval-refused :
    (id action : String) (approved : Bool) (actor : String) (why : Option String) (w : World)
    → pending_count id action w ≡ 0
    → resolve_approval id action approved actor why w
      ≡ (err (value_error "approval is not pending"), w)
unfolding resolve_approval
resolve_approval-refused id action approved actor why w none_pending = rw (
  none_pending,
  update_where-of-count-zero (is_pending_approval id action) (resolve approved actor why w.now)
      w.approvals none_pending,
)

pub pending_count-resolve :
    (id action : String) (approved : Bool) (actor : String) (why : Option String) (w : World)
    → pending_count id action (resolve_approval id action approved actor why w).1 ≡ 0
unfolding resolve_approval
pending_count-resolve id action approved actor why w =
    elim (Bool-cases (pending_count id action w == 1)) [
      | inl e ↦ rw e emptied
      | inr e ↦ rw e emptied
    ]
  where
    emptied :
        count_where (is_pending_approval id action) (
          update_where
            (is_pending_approval id action)
            (resolve approved actor why w.now)
            w.approvals)
        ≡ 0
    emptied =
        count-update_where_self (is_pending_approval id action) (resolve approved actor why w.now)
          (once_decided id action approved actor why w.now) w.approvals

-- After one attempt at a verdict, whether it succeeded or not, every further verdict on the action
-- is refused with `ValueError` and leaves every table alone: a decision is never overturned.
pub resolve_approval-once :
    (id action : String) (approved approved' : Bool) (actor actor' : String)
    (why why' : Option String) (w : World)
    → let w' = (resolve_approval id action approved actor why w).1 in
      resolve_approval id action approved' actor' why' w'
      ≡ (err (value_error "approval is not pending"), w')
resolve_approval-once id action approved approved' actor actor' why why' w =
    resolve_approval-refused id action approved' actor' why' _
      (pending_count-resolve id action approved actor why w)
