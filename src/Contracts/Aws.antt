-- ===== src/Contracts/Aws.antt =====
-- The store of agent_resilience/aws_store.py under the interface of agent_resilience/contracts.py, on
-- a table that behaves as DynamoDB documents.
use Prim.Native.String.{◌++◌ as concat}
use mathlib.Core.Path.{subst}
use agent_resilience_runtime.Prelude.{
  ℕ, String, true, Option, none, some, ◌≡◌, inl, inr, string_eq, sym, ◌∙◌, refl, ap, ◌⊎◌, beq_refl,
}
use agent_resilience_runtime.Exec.{Result, ok, err, ok_inj, Failure, concurrent_update}
use agent_resilience_runtime.Exec.Returns.{continue-ok}
use agent_resilience_runtime.Models.{WorkflowState}
use agent_resilience_runtime.AwsTools.{Answer}
use agent_resilience_runtime.AwsStore.{
  Services, Item, set_checkpoint, caught, caught_unless, state_key, get_workflow, save_workflow,
  read_state, next_checkpoint, workflow_item, event_item, result_item, approval_item,
}
use agent_resilience_runtime.AwsStore.Answers.{caught-answer, caught_unless-answer, continue-lift}
use agent_resilience_runtime.AwsStore.Table.{Items, IsTable, meets, update_at}
use agent_resilience_runtime.AwsStore.Lock.{
  HasStates, checkpoint, state_in, state_key-beq, meets-version, update_at-HasStates,
}
use agent_resilience_runtime.Contracts.{IsCheckpointStore, Same, Written}

read_state-state_in :
    (i : Option Item) (o : Option WorkflowState) → read_state i ≡ ok o → o ≡ state_in i
read_state-state_in none o h = sym (ok_inj h)
read_state-state_in (some (workflow_item v x u)) o h = sym (ok_inj h)
read_state-state_in (some (event_item a b c d)) o h = absurd (cc h)
read_state-state_in (some (result_item a b c d e)) o h = absurd (cc h)
read_state-state_in (some (approval_item a b c d e)) o h = absurd (cc h)

module _ {S : Type 0} (services : Services S) (items : S → Items)
    (table : IsTable services items) where
  abbrev pub IsOk : S → Type 0
  IsOk s = HasStates (items s)

  abbrev pub stored : String → S → Option WorkflowState
  stored id s = checkpoint id (items s)

  -- The conditional update of a save held and took place.
  abbrev Moved : WorkflowState → ℕ → S → S → Type 0
  Moved x v s t =
      let u = set_checkpoint v (next_checkpoint services x v s) in
      (meets u (items s (state_key x.task_id)) ≡ true)
      × (items t ≡ update_at (state_key x.task_id) u (items s))

  Same-items : (s t : S) → items t ≡ items s → IsOk s → Same IsOk stored s t
  Same-items s t e k = record {
    still_ok = rw (sym e) at k;
    kept = λ id. ap (λ f. state_in (f (state_key id))) e;
  }

  written :
      (x : WorkflowState) (v : ℕ) (s t : S)
      → IsOk s
      → Moved x v s t
      → Written IsOk stored x v (next_checkpoint services x v s) s t
  written x v s t k (met, e) =
      let n = next_checkpoint services x v s in
      let found = meets-version x.task_id v n _ (k.agree x.task_id) met in
      record {
        still_ok = rw (sym e) at (update_at-HasStates v n (items s) k);
        fresh = found.0;
        next = refl;
        carries = refl;
        now_stored = rw (e, state_key-beq x.task_id x.task_id, beq_refl x.task_id, found.1) refl;
        others = λ id apart. rw (e, state_key-beq x.task_id id, apart) refl;
      }

  reads :
      (id : String) (s t : S) (o : Option WorkflowState)
      → IsOk s
      → get_workflow services id s ≡ (ok o, t)
      → o ≡ stored id s
  unfolding get_workflow
  reads id s t o k h =
      let reply = services.get_item (state_key id) s in
      let (i, got, read) = continue-ok (caught "read checkpoint" reply.0) _ reply.1 t o h in
      read_state-state_in i o (ap (λ p. p.0) read)
      ∙ ap state_in (table.get_reads (state_key id) s (caught-answer _ reply.0 i got))

  read_keeps : (id : String) (s : S) → IsOk s → Same IsOk stored s (get_workflow services id s).1
  unfolding get_workflow
  read_keeps id s k =
      let reply = services.get_item (state_key id) s in
      Same-items s _
        (ap items (continue-lift (caught "read checkpoint" reply.0) read_state reply.1)
          ∙ table.get_keeps (state_key id) s)
        k

  abbrev stale : String → Result (Unit {0})
  stale id = err (concurrent_update (concat "stale checkpoint for " id))

  abbrev outcome : WorkflowState → Answer (Unit {0}) → Result (Unit {0})
  outcome x reply = caught_unless "save checkpoint" (stale x.task_id) reply

  saves :
      (x : WorkflowState) (v : ℕ) (s t : S) (r : WorkflowState)
      → IsOk s
      → save_workflow services x v s ≡ (ok r, t)
      → Written IsOk stored x v r s t
  unfolding save_workflow
  saves x v s t r k h =
      let n = next_checkpoint services x v s in
      let reply = services.update_item (state_key x.task_id) (set_checkpoint v n) s in
      let (a, got, ret) = continue-ok (outcome x reply.0) _ reply.1 t r h in
      let done = written x v s reply.1 k (
        table.update_done _ _ s
          (elim (caught_unless-answer "save checkpoint" (stale x.task_id) reply.0 tt got) [
            | inl e ↦ e
            | inr (refused, e) ↦ absurd (cc e)
          ])) in
      subst (λ q. Written IsOk stored x v q s t) (ok_inj (ap (λ p. p.0) ret))
        (subst (λ q. Written IsOk stored x v n s q) (ap (λ p. p.1) ret) done)

  fails :
      (x : WorkflowState) (v : ℕ) (s t : S) (e : Failure)
      → IsOk s
      → save_workflow services x v s ≡ (err e, t)
      → Same IsOk stored s t ⊎ ((r : WorkflowState) × Written IsOk stored x v r s t)
  unfolding save_workflow
  fails x v s t e k h =
      let n = next_checkpoint services x v s in
      let u = set_checkpoint v n in
      let reply = services.update_item (state_key x.task_id) u s in
      let end : reply.1 ≡ t =
        sym (continue-lift (outcome x reply.0) (λ _. ok n) reply.1) ∙ ap (λ p. p.1) h in
      elim (table.update_moves (state_key x.task_id) u s) [
        | inl same ↦ inl (Same-items s t (rw end at same) k)
        | inr moved ↦ inr (n, written x v s t k (moved.0, rw end at moved.1))
      ]

  pub aws-IsCheckpointStore :
      IsCheckpointStore IsOk stored (get_workflow services) (save_workflow services)
  aws-IsCheckpointStore = record {
    reads = reads;
    read_keeps = read_keeps;
    saves = saves;
    fails = fails;
  }
