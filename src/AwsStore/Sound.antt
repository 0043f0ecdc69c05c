-- ===== src/AwsStore/Sound.antt =====
-- The checkpoints of agent_resilience/aws_store.py over every sequence of calls: the attributes of an
-- item against the state that is stored in it.
use agent_resilience_runtime.Prelude.{
  String, Bool, Option, ◌≡◌, refl, sym, ◌==◌, string_eq, arith, Bool-cases, inl, inr, List,
  some_inj,
}
use agent_resilience_runtime.Models.{Arguments}
use agent_resilience_runtime.AwsStore.Cloud.{Services, Key, Item, Update, set_verdict}
use agent_resilience_runtime.AwsStore.Checkpoints.{state_key}
use agent_resilience_runtime.AwsStore.Keys.{
  StoreKey, state_of, event_of, result_of, approval_of, key_of, kind, key_beq-of-kinds,
}
use agent_resilience_runtime.AwsStore.Table.{Items, IsTable, IsQueueApart, write, update_at}
use agent_resilience_runtime.AwsStore.Lock.{HasStates, state_key-beq, update_at-HasStates}
use agent_resilience_runtime.AwsStore.Steps.{
  Put, checkpoint, event, result, approval, Change, save, decide, Step, put, change, Reaches, stay,
  after,
}
use agent_resilience_runtime.AwsStore.Trace.{Operation, perform_all}
use agent_resilience_runtime.AwsStore.Walk.{perform_all-Walks}

-- A table that has the checkpoints of another.
same_states :
    (f g : Items)
    → ((id : String) → g (state_key id) ≡ f (state_key id))
    → HasStates f
    → HasStates g
same_states f g e k = record { agree = λ id i h. k.agree id i (rw (e id) at h) }

write-apart :
    (a : StoreKey) (i : Item) (f : Items) (id : String)
    → (kind a ≡ 0 → ⊥)
    → write (key_of a) i f (state_key id) ≡ f (state_key id)
write-apart a i f id h = rw (key_beq-of-kinds a (state_of id) h) refl

update_at-apart :
    (a : StoreKey) (u : Update) (f : Items) (id : String)
    → (kind a ≡ 0 → ⊥)
    → update_at (key_of a) u f (state_key id) ≡ f (state_key id)
update_at-apart a u f id h = rw (key_beq-of-kinds a (state_of id) h) refl

pub Put-HasStates :
    (new : Bool) (k : Key) (i : Item) (f : Items)
    → Put new k i
    → HasStates f
    → HasStates (write k i f)
Put-HasStates _ _ _ f (checkpoint x t) k = record {
  agree = λ id i h. elim (Bool-cases (x.task_id == id)) [
    | inl e ↦
        rw (sym (some_inj (rw (state_key-beq x.task_id id, e) at h)))
          ((string_eq.beq_iff x.task_id id).0 e, refl)
    | inr e ↦ k.agree id i (rw (state_key-beq x.task_id id, e) at h)
  ];
}
Put-HasStates _ _ _ f (event id e task b t) k =
    same_states f _ (λ j. write-apart (event_of id e) _ f j (omega arith)) k
Put-HasStates _ _ _ f (result key id hash tool v t) k =
    same_states f _ (λ j. write-apart (result_of key) _ f j (omega arith)) k
Put-HasStates _ _ _ f (approval id action t) k =
    same_states f _ (λ j. write-apart (approval_of id action) _ f j (omega arith)) k

Change-HasStates :
    (k : Key) (u : Update) (f : Items) → Change k u → HasStates f → HasStates (update_at k u f)
Change-HasStates _ _ f (save v x) k = update_at-HasStates v x f k
Change-HasStates _ _ f (decide id action actor why status t) k =
    same_states f _
      (λ j.
        update_at-apart (approval_of id action) (set_verdict status actor why t) f j (omega arith))
      k

Step-HasStates : (f g : Items) → Step f g → HasStates f → HasStates g
Step-HasStates f g (put new k i p guard e) h = rw e (Put-HasStates new k i f p h)
Step-HasStates f g (change k u c guard e) h = rw e (Change-HasStates k u f c h)

Reaches-HasStates : (f g : Items) → Reaches f g → HasStates f → HasStates g
Reaches-HasStates f g (stay e) h = rw e h
Reaches-HasStates f g (after {g = m} step rest) h =
    Reaches-HasStates m g rest (Step-HasStates f m step h)

module _ {S : Type 0} (services : Services S) (queue_url : String) (dlq_url : Option String)
    (hash : Arguments → String) (items : S → Items) (table : IsTable services items)
    (apart : IsQueueApart services items) where
  -- On a table that behaves as documented, where every checkpoint stands under the key of its own
  -- task and its attribute `version`, which the conditional update reads, is the version of the
  -- state that is stored with it, that is still so after any calls, in any order and whether they
  -- return or raise.
  pub perform_all-HasStates :
      (os : List Operation) (s : S)
      → HasStates (items s)
      → HasStates (items (perform_all services queue_url dlq_url hash os s))
  perform_all-HasStates os s =
      Reaches-HasStates (items s) _
        (perform_all-Walks services items queue_url dlq_url hash table apart os s)
