-- ===== src/AwsStore/Lock.antt =====
-- The checkpoints of agent_resilience/aws_store.py as items of the table, and what a conditional
-- update makes of them.
use mathlib.Core.Option
use agent_resilience_runtime.Prelude.{
  ℕ, String, Bool, true, Option, none, some, ◌≡◌, ◌==◌, string_eq, nat_eq, ◌&&◌, arith, refl, ap,
  sym, ◌∙◌, Bool-cases, inl, inr, some_inj,
}
use agent_resilience_runtime.Models.{WorkflowState}
use agent_resilience_runtime.Contracts.{version_of}
use agent_resilience_runtime.AwsStore.Cloud.{
  Item, workflow_item, event_item, result_item, approval_item, set_checkpoint,
}
use agent_resilience_runtime.AwsStore.Checkpoints.{state_key}
use agent_resilience_runtime.AwsStore.Table.{Items, key_beq, meets, updated, update_at, concat-beq}

-- The state of a checkpoint's item.
abbrev pub state_in : Option Item → Option WorkflowState
state_in (some (workflow_item version x u)) = some x
state_in _ = none

abbrev pub checkpoint : String → Items → Option WorkflowState
checkpoint id items = state_in (items (state_key id))

-- The item's attribute `version` is the state's, and its key the task's.
abbrev pub IsItemOf : String → Item → Type 0
IsItemOf id (workflow_item version x u) = (x.task_id ≡ id) × (x.version ≡ version)
IsItemOf id _ = ⊥

pub record HasStates (items : Items) : Type 0 where
  pub agree : (id : String) (i : Item) → items (state_key id) ≡ some i → IsItemOf id i

pub state_key-beq : (a b : String) → key_beq (state_key a) (state_key b) ≡ (a == b)
state_key-beq a b = rw (concat-beq "WORKFLOW#" a b) (and_true (a == b))
  where
    and_true : (b : Bool) → (b && true) ≡ b
    and_true b = ground arith

-- Where the update's condition holds, the stored version is the expected one.
pub meets-version :
    (id : String) (v : ℕ) (n : WorkflowState) (o : Option Item)
    → ((i : Item) → o ≡ some i → IsItemOf id i)
    → meets (set_checkpoint v n) o ≡ true
    → (version_of (state_in o) ≡ some v)
      × (Option.map (updated (set_checkpoint v n)) o
          ≡ some (workflow_item n.version n n.updated_at))
meets-version id v n (some (workflow_item w y u)) agree h =
    (ap some (agree _ refl).1 ∙ ap some ((nat_eq.beq_iff w v).0 h), refl)
meets-version id v n (some (event_item a b c d)) agree h = absurd (cc h)
meets-version id v n (some (result_item a b c d e)) agree h = absurd (cc h)
meets-version id v n (some (approval_item a b c d e)) agree h = absurd (cc h)
meets-version id v n none agree h = absurd (cc h)

updated-IsItemOf :
    (id : String) (v : ℕ) (n : WorkflowState) (o : Option Item) (i : Item)
    → n.task_id ≡ id
    → ((j : Item) → o ≡ some j → IsItemOf id j)
    → Option.map (updated (set_checkpoint v n)) o ≡ some i
    → IsItemOf id i
updated-IsItemOf id v n none i same agree h = absurd (cc h)
updated-IsItemOf id v n (some (workflow_item w y u)) i same agree h =
    rw (sym (some_inj h)) (same, refl)
updated-IsItemOf id v n (some (event_item a b c d)) i same agree h = absurd (agree _ refl)
updated-IsItemOf id v n (some (result_item a b c d e)) i same agree h = absurd (agree _ refl)
updated-IsItemOf id v n (some (approval_item a b c d e)) i same agree h = absurd (agree _ refl)

pub update_at-HasStates :
    (v : ℕ) (n : WorkflowState) (items : Items)
    → HasStates items
    → HasStates (update_at (state_key n.task_id) (set_checkpoint v n) items)
update_at-HasStates v n items k = record {
  agree = λ id i h. elim (Bool-cases (n.task_id == id)) [
    | inl e ↦
        updated-IsItemOf id v n (items (state_key id)) i ((string_eq.beq_iff n.task_id id).0 e)
          (k.agree id) (rw (state_key-beq n.task_id id, e) at h)
    | inr e ↦ k.agree id i (rw (state_key-beq n.task_id id, e) at h)
  ];
}
