-- ===== src/Store/Trace/Verdicts.antt =====
-- The approvals of agent_resilience/store.py over every sequence of operations.
use agent_resilience_runtime.Prelude.{
  ℕ, String, Bool, false, Option, some, List, [], ◌∷◌, ◌≡◌, refl, ap, ◌∙◌, inl, inr, ◌==◌, nat_eq,
  arith, Bool-cases, is_some, find, update_where, count_where,
}
use agent_resilience_runtime.Prelude.Rows.{find-append, find-update_where, updated}
use agent_resilience_runtime.Models.{WorkflowState}
use agent_resilience_runtime.Store.Tables.{World, ApprovalRow}
use agent_resilience_runtime.Store.Checkpoints.{create_workflow}
use agent_resilience_runtime.Store.DeadLetters.{replay_dead_letter}
use agent_resilience_runtime.Store.Approvals.{
  approval_row, is_approval, create_approval, resolve_approval, is_pending_approval, resolve,
  is_pending,
}
use agent_resilience_runtime.Store.Frame.{
  SkipsQueue, save_workflow-Same, record_event-Same, enqueue-Same, claim-Same, acknowledge-Same,
  extend_lease-Same, retry_or_dead_letter-Same, save_tool_result-Same,
}
use agent_resilience_runtime.Store.Trace.{Operation, perform, perform_all}

abbrev approvals_of : World → List ApprovalRow
approvals_of w = w.approvals

queue_skip : SkipsQueue approvals_of
queue_skip = record { skip = λ w x n. refl }

-- The action has a row, and it is no longer pending.
pub record IsDecided (id action : String) (r : ApprovalRow) (w : World) : Type 0 where
  pub stored : approval_row id action w ≡ some r
  pub settled : is_pending r.status ≡ false

same_approvals :
    (id action : String) (r : ApprovalRow) (w w' : World)
    → w'.approvals ≡ w.approvals
    → IsDecided id action r w
    → IsDecided id action r w'
same_approvals id action r w w' e k = record {
  stored = ap (find (is_approval id action)) e ∙ k.stored;
  settled = k.settled;
}

create_workflow-approvals :
    (s : WorkflowState) (max : ℕ) (w : World) → (create_workflow s max w).1.approvals ≡ w.approvals
unfolding create_workflow
create_workflow-approvals s max w = ground arith

replay-approvals :
    (i : ℕ) (id : String) (max : ℕ) (actor why : String) (w : World)
    → (replay_dead_letter i id max actor why w).1.approvals ≡ w.approvals
unfolding replay_dead_letter
replay-approvals i id max actor why w = ground arith

create_approval-IsDecided :
    (i a id action : String) (r : ApprovalRow) (w : World)
    → IsDecided id action r w
    → IsDecided id action r (create_approval i a w).1
unfolding create_approval
create_approval-IsDecided i a id action r w k = elim (Bool-cases (is_some (approval_row i a w))) [
  | inl old ↦ rw old k
  | inr new ↦ rw new (record {
    stored = find-append (is_approval id action) w.approvals _ ∙ rw k.stored refl;
    settled = k.settled;
  })
]

-- A row that is not pending is not written.
untouched :
    (i a : String) (f : ApprovalRow → ApprovalRow) (r : ApprovalRow)
    → is_pending r.status ≡ false
    → updated (is_pending_approval i a) f r ≡ r
untouched i a f r h = ground arith

resolve_approval-IsDecided :
    (i a : String) (approved : Bool) (actor : String) (why : Option String) (id action : String)
    (r : ApprovalRow) (w : World)
    → IsDecided id action r w
    → IsDecided id action r (resolve_approval i a approved actor why w).1
unfolding resolve_approval
resolve_approval-IsDecided i a approved actor why id action r w k =
    elim (Bool-cases (count_where (is_pending_approval i a) w.approvals == 1)) [
      | inl one ↦ rw one kept
      | inr other_ ↦ rw other_ kept
    ]
  where
    kept : IsDecided id action r (record w {
      approvals =
          update_where (is_pending_approval i a) (resolve approved actor why w.now) w.approvals;
    })
    kept = record {
      stored =
          find-update_where (is_approval id action) (is_pending_approval i a)
            (resolve approved actor why w.now) (λ x. refl) w.approvals
          ∙ rw k.stored (ap some (untouched i a (resolve approved actor why w.now) r k.settled));
      settled = k.settled;
    }

perform-IsDecided :
    (o : Operation) (id action : String) (r : ApprovalRow) (w : World)
    → IsDecided id action r w
    → IsDecided id action r (perform o w)
perform-IsDecided (Operation.create s max) id action r w =
    same_approvals id action r w _ (create_workflow-approvals s max w)
perform-IsDecided (Operation.event i e) id action r w =
    same_approvals id action r w _
      ((record_event-Same approvals_of (record { skip = λ u x. refl }) i e).at w)
perform-IsDecided (Operation.replay i t max actor why) id action r w =
    same_approvals id action r w _ (replay-approvals i t max actor why w)
perform-IsDecided (Operation.save s v) id action r w =
    same_approvals id action r w _
      ((save_workflow-Same approvals_of (record { skip = λ u x. refl }) s v).at w)
perform-IsDecided (Operation.enqueue_task i max) id action r w =
    same_approvals id action r w _ ((enqueue-Same approvals_of queue_skip i max).at w)
perform-IsDecided (Operation.claim_next worker lease) id action r w =
    same_approvals id action r w _ ((claim-Same approvals_of queue_skip worker lease).at w)
perform-IsDecided (Operation.acknowledge_id i) id action r w =
    same_approvals id action r w _ ((acknowledge-Same approvals_of queue_skip i).at w)
perform-IsDecided (Operation.extend d lease) id action r w =
    same_approvals id action r w _ ((extend_lease-Same approvals_of queue_skip d lease).at w)
perform-IsDecided (Operation.retry d why base) id action r w =
    same_approvals id action r w _
      ((retry_or_dead_letter-Same approvals_of queue_skip d why base).at w)
perform-IsDecided (Operation.store_result hash key i t a v) id action r w =
    same_approvals id action r w _
      ((save_tool_result-Same approvals_of (record { skip = λ u x. refl }) hash key i t a v).at w)
perform-IsDecided (Operation.new_approval i a) id action r w =
    create_approval-IsDecided i a id action r w
perform-IsDecided (Operation.decide i a approved actor why) id action r w =
    resolve_approval-IsDecided i a approved actor why id action r w
perform-IsDecided (Operation.call c) id action r w = same_approvals id action r w _ refl
perform-IsDecided Operation.ask id action r w = same_approvals id action r w _ refl
perform-IsDecided (Operation.wait n) id action r w = same_approvals id action r w _ refl

-- Whatever operations run, in any order, an approval that has been granted or rejected keeps its
-- row as it is: verdict, actor, reason and time.
pub perform_all-IsDecided :
    (os : List Operation) (id action : String) (r : ApprovalRow) (w : World)
    → IsDecided id action r w
    → IsDecided id action r (perform_all os w)
perform_all-IsDecided [] id action r w k = k
perform_all-IsDecided (o ∷ os) id action r w k =
    perform_all-IsDecided os id action r (perform o w) (perform-IsDecided o id action r w k)
