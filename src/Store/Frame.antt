-- ===== src/Store/Frame.antt =====
-- Which parts of the world a store operation leaves alone, whatever it returns or raises.
use agent_resilience_runtime.Exec.{Result, ok, err}
use agent_resilience_runtime.Prelude.{
  ℕ, ◌+◌, String, Bool, Option, List, ◌≡◌, refl, ◌∙◌, arith, inl, inr, Bool-cases, Option-cases,
  is_some, update_where, count_where, ◌==◌, nat_eq,
}
use agent_resilience_runtime.Exec.Keeps.{IsPreorder, Moves, move_rules}
use agent_resilience_runtime.Models.{WorkflowState, QueueDelivery, ToolName, Arguments}
use agent_resilience_runtime.Models.Values.{Json}
use agent_resilience_runtime.Store.Tables.{
  World, WorkflowRow, QueueRow, ToolResultRow, EventRow, EventBody, ApprovalRow,
}
use agent_resilience_runtime.Store.Checkpoints.{
  save_workflow, get_workflow, update_workflow, next_checkpoint, workflow_row, insert_delivery,
}
use agent_resilience_runtime.Store.Events.{record_event, insert_event}
use agent_resilience_runtime.Store.Approvals.{
  create_approval, approval_status, insert_approval, resolve_approval, resolve, is_pending_approval,
}
use agent_resilience_runtime.Store.Results.{save_tool_result, insert_result}
use agent_resilience_runtime.Store.Queue.{
  enqueue, active_delivery, update_queue, claim, release_expired, is_expired, release,
  next_delivery, is_pending_id, take_lease, acknowledge, has_id, finish, extend_lease,
  is_processing_id, renew, put_back, retry_or_dead_letter, retry_delay,
}

-- `part` is as it was.
abbrev pub Same : {A : Type 0} → (World → A) → World → World → Type 0
Same part w w' = part w' ≡ part w

pub Same-IsPreorder : {A : Type 0} (part : World → A) → IsPreorder (Same part)
Same-IsPreorder part = record { same = λ w. refl; then_ = λ w v u p q. q ∙ p }

-- `part` does not read a table.
pub record SkipsWorkflows {A : Type 0} (part : World → A) : Type 0 where
  pub skip : (w : World) (x : List WorkflowRow) → part (record w { workflows = x }) ≡ part w

pub record SkipsEvents {A : Type 0} (part : World → A) : Type 0 where
  pub skip : (w : World) (x : List EventRow) → part (record w { events = x }) ≡ part w

pub record SkipsApprovals {A : Type 0} (part : World → A) : Type 0 where
  pub skip : (w : World) (x : List ApprovalRow) → part (record w { approvals = x }) ≡ part w

pub record SkipsQueue {A : Type 0} (part : World → A) : Type 0 where
  pub skip :
      (w : World) (x : List QueueRow) (n : ℕ) → part (record w { queue = x; next_id = n }) ≡ part w

pub record SkipsResults {A : Type 0} (part : World → A) : Type 0 where
  pub skip : (w : World) (x : List ToolResultRow) → part (record w { tool_results = x }) ≡ part w

module _ {A : Type 0} (part : World → A) where
  pub save_workflow-Same :
      SkipsWorkflows part → (s : WorkflowState) (v : ℕ) → Moves (Same part) (save_workflow s v)
  unfolding save_workflow
  save_workflow-Same k s v = record {
    at = λ w. ground (arith, k.skip w (update_workflow (next_checkpoint s v w) v w).workflows);
  }

  pub record_event-Same :
      SkipsEvents part → (id : String) (e : EventBody) → Moves (Same part) (record_event id e)
  unfolding record_event
  record_event-Same k id e = record { at = λ w. k.skip w (insert_event id e w).events }

  pub create_approval-Same :
      SkipsApprovals part → (id action : String) → Moves (Same part) (create_approval id action)
  unfolding create_approval
  create_approval-Same k id action = record {
    at = λ w. ground (arith, k.skip w (insert_approval id action w).approvals);
  }

  pub get_workflow-Same : (id : String) → Moves (Same part) (get_workflow id)
  unfolding get_workflow
  get_workflow-Same id = record { at = λ w. refl }

  pub approval_status-Same : (id action : String) → Moves (Same part) (approval_status id action)
  unfolding approval_status
  approval_status-Same id action = record { at = λ w. refl }

module _ {A : Type 0} (part : World → A) (k : SkipsQueue part) where
  pub enqueue-Same : (id : String) (max : ℕ) → Moves (Same part) (enqueue id max)
  unfolding enqueue
  enqueue-Same id max = record {
    at = λ w. elim (Option-cases (active_delivery id w)) [
      | inl fresh ↦ elim (Bool-cases (is_some (workflow_row id w))) [
        | inl known ↦
            rw (fresh, known)
              (k.skip w (insert_delivery id max w).queue (insert_delivery id max w).next_id)
        | inr unknown ↦ rw (fresh, unknown) refl
      ]
      | inr (r, old) ↦ rw old refl
    ];
  }

  update_queue-same :
      (p : QueueRow → Bool) (f : QueueRow → QueueRow) (w : World)
      → part (update_queue p f w) ≡ part w
  update_queue-same p f w = k.skip w (update_queue p f w).queue w.next_id

  pub claim-Same : (worker : String) (lease : ℕ) → Moves (Same part) (claim worker lease)
  unfolding claim
  claim-Same worker lease = record {
    at = λ w.
        let released = update_queue-same (is_expired w.now) (release w.now) w in
        elim (Option-cases (next_delivery (release_expired w))) [
          | inl nothing ↦ rw nothing released
          | inr (r, next) ↦ rw next (
              update_queue-same (is_pending_id r.id)
                (take_lease (r.attempts + 1) worker (w.now + lease) w.now) (release_expired w)
              ∙ released)
        ];
  }

  pub acknowledge-Same : (i : ℕ) → Moves (Same part) (acknowledge i)
  unfolding acknowledge
  acknowledge-Same i = record { at = λ w. update_queue-same (has_id i) (finish w.now) w }

  pub extend_lease-Same : (d : QueueDelivery) (lease : ℕ) → Moves (Same part) (extend_lease d lease)
  unfolding extend_lease
  extend_lease-Same d lease = record {
    at = λ w. update_queue-same (is_processing_id d.id) (renew (w.now + lease) w.now) w;
  }

  put_back-Same :
      (d : QueueDelivery) (why : String) (r : Result ℕ) → Moves (Same part) (put_back d why r)
  put_back-Same d why (err e) = record { at = λ w. refl }
  put_back-Same d why (ok delay) = record { at = λ w. update_queue-same (has_id d.id) _ w }

  pub retry_or_dead_letter-Same :
      (d : QueueDelivery) (why : String) (base : ℕ)
      → Moves (Same part) (retry_or_dead_letter d why base)
  unfolding retry_or_dead_letter
  retry_or_dead_letter-Same d why base = put_back-Same d why (retry_delay base d.attempts)

module _ {A : Type 0} (part : World → A) where
  pub resolve_approval-Same :
      SkipsApprovals part
      → (id action : String) (approved : Bool) (actor : String) (why : Option String)
      → Moves (Same part) (resolve_approval id action approved actor why)
  unfolding resolve_approval
  resolve_approval-Same k id action approved actor why = record {
    at = λ w.
        let x =
          update_where (is_pending_approval id action) (resolve approved actor why w.now)
            w.approvals in
        elim (Bool-cases (count_where (is_pending_approval id action) w.approvals == 1)) [
          | inl one ↦ rw one (k.skip w x)
          | inr other_ ↦ rw other_ (k.skip w x)
        ];
  }

  pub save_tool_result-Same :
      SkipsResults part
      → (hash : Arguments → String) (key id : String) (t : ToolName) (a : Arguments) (v : Json)
      → Moves (Same part) (save_tool_result hash key id t a v)
  unfolding save_tool_result
  save_tool_result-Same k hash key id t a v = record {
    at = λ w. ground (arith, k.skip w (insert_result hash key id t a v w).tool_results);
  }

pub ruleset frame_rules = (
  move_rules, Same-IsPreorder, save_workflow-Same, record_event-Same, create_approval-Same,
  get_workflow-Same, approval_status-Same,
)
