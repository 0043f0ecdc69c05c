-- ===== src/AwsStore/Settled.antt =====
-- The items of agent_resilience/aws_store.py that are written once, a tool's result and an approval
-- with its verdict, over every sequence of calls.
use agent_resilience_runtime.Prelude.{
  ℕ, String, Bool, true, false, Option, some, ◌≡◌, refl, sym, ap, ◌∙◌, arith, Bool-cases, inl, inr,
  List, string_eq,
}
use agent_resilience_runtime.Models.{Arguments}
use agent_resilience_runtime.Store.{ApprovalStatus}
use agent_resilience_runtime.Store.Approvals.{is_pending}
use agent_resilience_runtime.AwsStore.Cloud.{Services, Key, Item, approval_item, Update}
use agent_resilience_runtime.AwsStore.Keys.{
  StoreKey, state_of, event_of, result_of, approval_of, key_of, kind, key_beq-of-kinds,
}
use agent_resilience_runtime.AwsStore.Table.{
  Items, IsTable, IsQueueApart, key_beq, key_beq_iff, can_put, meets,
}
use agent_resilience_runtime.AwsStore.Steps.{
  Put, checkpoint, event, result, approval, Change, save, decide, Step, put, change, Reaches, stay,
  after,
}
use agent_resilience_runtime.AwsStore.Trace.{Operation, perform_all}
use agent_resilience_runtime.AwsStore.Walk.{perform_all-Walks}

pub key_beq_refl : (k : Key) → key_beq k k ≡ true
key_beq_refl k = (key_beq_iff k k).1 refl

pub data IsSettled : StoreKey → Item → Type 0 where
  kept : (key : String) (i : Item) → IsSettled (result_of key) i
  decided :
      (id action : String) (status : ApprovalStatus) (actor why : Option String) (c : ℕ)
      (t : Option ℕ)
      → is_pending status ≡ false
      → IsSettled (approval_of id action) (approval_item status actor why c t)

apart-of-kinds : (a b : StoreKey) → (kind a ≡ kind b → ⊥) → key_beq (key_of a) (key_of b) ≡ true → ⊥
apart-of-kinds a b h e = absurd (cc (sym (key_beq-of-kinds a b h) ∙ e))

-- No put is made at the key of a settled item.
no-put :
    (a : StoreKey) (j : Item) (new : Bool) (k : Key) (i : Item)
    → IsSettled a j
    → Put new k i
    → can_put new (some j) ≡ true
    → key_beq k (key_of a) ≡ true
    → ⊥
no-put a j _ _ _ settled (checkpoint x t) guard e = absurd (cc guard)
no-put _ _ _ _ _ (kept key j) (event id e task b t) guard h =
    apart-of-kinds (event_of id e) (result_of key) (omega arith) h
no-put _ _ _ _ _ (decided i action st actor why c u d) (event id e task b t) guard h =
    apart-of-kinds (event_of id e) (approval_of i action) (omega arith) h
no-put a j _ _ _ settled (result key id hash tool v t) guard e = absurd (cc guard)
no-put a j _ _ _ settled (approval id action t) guard e = absurd (cc guard)

pub no-Change :
    (a : StoreKey) (j : Item) (k : Key) (u : Update)
    → IsSettled a j
    → Change k u
    → meets u (some j) ≡ true
    → key_beq k (key_of a) ≡ true
    → ⊥
no-Change _ _ _ _ (kept key j) (save v x) guard h =
    apart-of-kinds (state_of x.task_id) (result_of key) (omega arith) h
no-Change _ _ _ _ (kept key j) (decide id action actor why status t) guard h =
    apart-of-kinds (approval_of id action) (result_of key) (omega arith) h
no-Change _ _ _ _ (decided id action st actor why c t d) (save v x) guard h = absurd (cc guard)
no-Change _ _ _ _ (decided i b st a w c s d) (decide id action actor why status t) guard h =
    absurd (cc (sym d ∙ guard))

Step-settled :
    (a : StoreKey) (j : Item) (f g : Items)
    → IsSettled a j
    → Step f g
    → f (key_of a) ≡ some j
    → g (key_of a) ≡ some j
Step-settled a j f g settled (put new k i p guard e) h = elim (Bool-cases (key_beq k (key_of a))) [
  | inl same ↦
      let at_key : f k ≡ some j = ap f ((key_beq_iff k (key_of a)).0 same) ∙ h in
      absurd (no-put a j new k i settled p (rw at_key at guard) same)
  | inr other ↦ rw (e, other) h
]
Step-settled a j f g settled (change k u c guard e) h = elim (Bool-cases (key_beq k (key_of a))) [
  | inl same ↦
      let at_key : f k ≡ some j = ap f ((key_beq_iff k (key_of a)).0 same) ∙ h in
      absurd (no-Change a j k u settled c (rw at_key at guard) same)
  | inr other ↦ rw (e, other) h
]

Reaches-settled :
    (a : StoreKey) (j : Item) (f g : Items)
    → IsSettled a j
    → Reaches f g
    → f (key_of a) ≡ some j
    → g (key_of a) ≡ some j
Reaches-settled a j f g settled (stay e) h = ap (λ t. t (key_of a)) e ∙ h
Reaches-settled a j f g settled (after {g = m} step rest) h =
    Reaches-settled a j m g settled rest (Step-settled a j f m settled step h)

module _ {S : Type 0} (services : Services S) (queue_url : String) (dlq_url : Option String)
    (hash : Arguments → String) (items : S → Items) (table : IsTable services items)
    (apart : IsQueueApart services items) where
  abbrev run : List Operation → S → S
  run = perform_all services queue_url dlq_url hash

  pub run-settled :
      (a : StoreKey) (j : Item) (os : List Operation) (s : S)
      → IsSettled a j
      → items s (key_of a) ≡ some j
      → items (run os s) (key_of a) ≡ some j
  run-settled a j os s settled =
      Reaches-settled a j (items s) _ settled
        (perform_all-Walks services items queue_url dlq_url hash table apart os s)
