-- ===== src/AwsStore/Steps.antt =====
-- The table of agent_resilience/aws_store.py as a state machine: the guarded writes that its methods
-- make, whatever they return or raise.
use agent_resilience_runtime.Prelude.{ℕ, String, Bool, true, false, none, ◌≡◌, sym}
use agent_resilience_runtime.Models.{WorkflowState, ToolName}
use agent_resilience_runtime.Models.Values.{Json}
use agent_resilience_runtime.Store.{EventBody, ApprovalStatus}
use agent_resilience_runtime.AwsStore.Cloud.{
  Key, Item, workflow_item, event_item, result_item, approval_item, Update, set_checkpoint,
  set_verdict,
}
use agent_resilience_runtime.AwsStore.Checkpoints.{state_key}
use agent_resilience_runtime.AwsStore.Records.{event_key, result_key, approval_key}
use agent_resilience_runtime.AwsStore.Table.{Items, can_put, write, meets, update_at}

-- The items that the store puts, and whether the item must not exist.
pub data Put : Bool → Key → Item → Type 0 where
  checkpoint :
      (x : WorkflowState) (t : ℕ) → Put true (state_key x.task_id) (workflow_item x.version x t)
  event :
      (id e task : String) (b : EventBody) (t : ℕ)
      → Put false (event_key id e) (event_item e task b t)
  result :
      (key id hash : String) (tool : ToolName) (v : Json) (t : ℕ)
      → Put true (result_key key) (result_item id tool hash v t)
  approval :
      (id action : String) (t : ℕ)
      → Put true (approval_key id action) (approval_item ApprovalStatus.pending none none t none)

pub data Change : Key → Update → Type 0 where
  save : (v : ℕ) (x : WorkflowState) → Change (state_key x.task_id) (set_checkpoint v x)
  decide :
      (id action actor why : String) (status : ApprovalStatus) (t : ℕ)
      → Change (approval_key id action) (set_verdict status actor why t)

pub data Step (f g : Items) : Type 0 where
  put :
      (new : Bool) (k : Key) (i : Item)
      → Put new k i
      → can_put new (f k) ≡ true
      → g ≡ write k i f
      → Step f g
  change :
      (k : Key) (u : Update) → Change k u → meets u (f k) ≡ true → g ≡ update_at k u f → Step f g

pub data Reaches : Items → Items → Type 0 where
  stay : {f g : Items} → g ≡ f → Reaches f g
  after : {f g h : Items} → Step f g → Reaches g h → Reaches f h

Reaches_trans : (f g h : Items) → Reaches f g → Reaches g h → Reaches f h
Reaches_trans f g h (stay e) more = rw (sym e) more
Reaches_trans f g h (after {g = m} step rest) more = after step (Reaches_trans m g h rest more)
