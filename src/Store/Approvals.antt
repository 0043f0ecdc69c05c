-- ===== src/Store/Approvals.antt =====
-- agent_resilience/store.py: `create_approval`, `resolve_approval` and `approval_status`.
pub mod Once
use agent_resilience_runtime.Prelude.{
  ℕ, String, Bool, true, false, Option, none, some, [], ◌∷◌, ◌++◌, ◌==◌, string_eq, nat_eq, ◌&&◌,
  not, if◌then◌else◌, find, update_where, count_where, is_some,
}
use mathlib.Core.Option
use agent_resilience_runtime.Exec.{value_error, pure, raise, gets, modify, ◌>>=◌, ◌>>◌}
use agent_resilience_runtime.Store.Tables.{World, ApprovalRow, ApprovalStatus, Run}

abbrev pub is_approval : String → String → ApprovalRow → Bool
is_approval id action r = r.task_id == id && r.action_id == action

abbrev pub approval_row : String → String → World → Option ApprovalRow
approval_row id action w = find (is_approval id action) w.approvals

abbrev pub insert_approval : String → String → World → World
insert_approval id action w = if is_some (approval_row id action w) then w else record w {
  approvals =
      w.approvals
      ++ record {
        task_id = id;
        action_id = action;
        status = ApprovalStatus.pending;
        actor = none;
        reason = none;
        created_at = w.now;
        resolved_at = none;
      }
        ∷ [];
}

-- `INSERT OR IGNORE`
unfoldable pub create_approval : String → String → Run (Unit {0})
create_approval id action = modify (insert_approval id action)

abbrev pub is_pending : ApprovalStatus → Bool
is_pending ApprovalStatus.pending = true
is_pending _ = false

abbrev pub is_pending_approval : String → String → ApprovalRow → Bool
is_pending_approval id action r = is_approval id action r && is_pending r.status

abbrev pub verdict : Bool → ApprovalStatus
verdict approved = if approved then ApprovalStatus.approved else ApprovalStatus.rejected

abbrev pub resolve : Bool → String → Option String → ℕ → ApprovalRow → ApprovalRow
resolve approved actor reason now r = record r {
  status = verdict approved;
  actor = some actor;
  reason = reason;
  resolved_at = some now;
}

unfoldable pub resolve_approval : String → String → Bool → String → Option String → Run (Unit {0})
resolve_approval id action approved actor reason = do
  rowcount ← gets (λ w. count_where (is_pending_approval id action) w.approvals)
  modify (λ w. record w {
    approvals =
        update_where (is_pending_approval id action) (resolve approved actor reason w.now)
          w.approvals;
  })
  if not (rowcount == 1) then raise (value_error "approval is not pending") else pure tt

unfoldable pub approval_status : String → String → Run (Option ApprovalStatus)
approval_status id action = gets (λ w. Option.map (λ r. r.status) (approval_row id action w))
