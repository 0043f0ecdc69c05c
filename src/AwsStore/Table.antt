-- ===== src/AwsStore/Table.antt =====
-- What agent_resilience/aws_store.py relies on of DynamoDB: a view of the table's items, and how the
-- calls change it. Conditions are checked and items written in one step; a call that fails has
-- written its item or not, for an answer may be lost, and a put may be refused because of its own first
-- attempt.
use Prim.Native.String.{◌++◌ as concat}
use mathlib.Core.Option
use text.Mathlib.TextLemmas.{append_cancel_left}
use agent_resilience_runtime.Prelude.{
  ℕ, String, Bool, true, false, not, Option, some, ◌≡◌, ◌⊎◌, ◌==◌, string_eq, nat_eq, ◌↔◌, ◌&&◌,
  if◌then◌else◌, is_some, arith, refl, Bool-cases, inl, inr, beq_refl,
}
use agent_resilience_runtime.Store.Approvals.{is_pending}
use agent_resilience_runtime.AwsTools.{answer, failure, client_error}
use agent_resilience_runtime.AwsStore.Cloud.{
  Services, Key, Item, workflow_item, approval_item, Update, set_checkpoint, set_verdict, Body,
  conditional_check_failed,
}

abbrev pub key_beq : Key → Key → Bool
key_beq a b = a.pk == b.pk && a.sk == b.sk

abbrev pub Items : Type 0
Items = Key → Option Item

-- The table after an item is written.
abbrev pub write : Key → Item → Items → Items
write k i items k' = if key_beq k k' then some i else items k'

-- `attribute_not_exists(pk)`, where it is asked for.
abbrev pub can_put : Bool → Option Item → Bool
can_put must_be_new old = not (must_be_new && is_some old)

-- The condition of an update; an attribute that an item lacks equals nothing.
abbrev pub meets : Update → Option Item → Bool
meets (set_checkpoint expected x) (some (workflow_item version s updated)) = version == expected
meets (set_verdict status actor reason resolved) (some (approval_item old a r c t)) = is_pending old
meets _ _ = false

abbrev pub updated : Update → Item → Item
updated (set_checkpoint expected x) (workflow_item version s u) =
    workflow_item x.version x x.updated_at
updated (set_verdict status actor reason resolved) (approval_item old a r c t) =
    approval_item status (some actor) (some reason) c (some resolved)
updated _ i = i

abbrev pub update_at : Key → Update → Items → Items
update_at k u items k' = if key_beq k k' then Option.map (updated u) (items k') else items k'

-- One atomic write that is guarded: nothing happens, or the guard held and the write took place.
abbrev pub Guarded : Bool → Items → Items → Items → Type 0
Guarded guard written before after = (after ≡ before) ⊎ ((guard ≡ true) × (after ≡ written))

-- `items` is the table as a strongly consistent read sees it.
pub record IsTable {S : Type 0} (services : Services S) (items : S → Items) : Type 0 where
  pub get_reads :
      (k : Key) (s : S) {i : Option Item} → (services.get_item k s).0 ≡ answer i → i ≡ items s k
  pub get_keeps : (k : Key) (s : S) → items (services.get_item k s).1 ≡ items s
  pub put_moves :
      (new : Bool) (k : Key) (i : Item) (s : S)
      → Guarded
          (can_put new (items s k))
          (write k i (items s))
          (items s)
          (items (services.put_item new k i s).1)
  pub put_done :
      (new : Bool) (k : Key) (i : Item) (s : S)
      → (services.put_item new k i s).0 ≡ answer tt
      → (can_put new (items s k) ≡ true)
        × (items (services.put_item new k i s).1 ≡ write k i (items s))
  pub put_refused :
      (k : Key) (i : Item) (s : S)
      → (services.put_item true k i s).0 ≡ failure (client_error (some conditional_check_failed))
      → is_some (items (services.put_item true k i s).1 k) ≡ true
  pub update_moves :
      (k : Key) (u : Update) (s : S)
      → Guarded
          (meets u (items s k))
          (update_at k u (items s))
          (items s)
          (items (services.update_item k u s).1)
  pub update_done :
      (k : Key) (u : Update) (s : S)
      → (services.update_item k u s).0 ≡ answer tt
      → (meets u (items s k) ≡ true)
        × (items (services.update_item k u s).1 ≡ update_at k u (items s))
  pub query_keeps : (id : String) (s : S) → items (services.query_events id s).1 ≡ items s
  pub query_workflows_keeps : (n : ℕ) (s : S) → items (services.query_workflows n s).1 ≡ items s

-- SQS has no part in the table.
pub record IsQueueApart {S : Type 0} (services : Services S) (items : S → Items) : Type 0 where
  pub send_keeps :
      (url : String) (b : Body) (s : S) → items (services.send_message url b s).1 ≡ items s
  pub receive_keeps :
      (url : String) (n m : ℕ) (s : S) → items (services.receive_message url n m s).1 ≡ items s
  pub delete_keeps :
      (url receipt : String) (s : S) → items (services.delete_message url receipt s).1 ≡ items s
  pub visibility_keeps :
      (url receipt : String) (n : ℕ) (s : S)
      → items (services.change_message_visibility url receipt n s).1 ≡ items s
  pub depth_keeps : (url : String) (s : S) → items (services.get_queue_attributes url s).1 ≡ items s

pub key_beq_iff : (a b : Key) → (key_beq a b ≡ true) ↔ (a ≡ b)
key_beq_iff a b = ground (arith, string_eq.beq_iff a.pk b.pk, string_eq.beq_iff a.sk b.sk)

-- Strings with one prefix are as different as what follows it.
pub concat-beq : (p a b : String) → (concat p a == concat p b) ≡ (a == b)
concat-beq p a b = elim (Bool-cases (a == b)) [
  | inl e ↦
      let same : a ≡ b = (string_eq.beq_iff a b).0 e in
      rw (same, beq_refl (concat p b), beq_refl b) refl
  | inr e ↦ ground (
    arith,
    e,
    string_eq.beq_iff (concat p a) (concat p b),
    string_eq.beq_iff a b,
    append_cancel_left p a b,
  )
]
