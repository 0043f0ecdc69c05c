-- ===== src/AwsStore/Verdicts.antt =====
-- The verdicts on approvals of agent_resilience/aws_store.py.
use mathlib.Core.Option
use agent_resilience_runtime.Prelude.{
  ℕ, String, Bool, true, false, Option, none, some, ◌≡◌, refl, sym, ap, ◌∙◌, inl, inr, List,
  string_eq, ◌≢◌,
}
use agent_resilience_runtime.Exec.{ok, ok_inj}
use agent_resilience_runtime.Exec.Returns.{continue-ok}
use agent_resilience_runtime.Models.{Arguments}
use agent_resilience_runtime.Store.{ApprovalStatus}
use agent_resilience_runtime.Store.Approvals.{is_pending, verdict}
use agent_resilience_runtime.AwsStore.Cloud.{
  Services, caught, Item, approval_item, result_item, workflow_item, event_item, set_verdict,
}
use agent_resilience_runtime.AwsStore.Records.{
  read_status, resolve_approval, approval_status, approval_key, or_empty,
}
use agent_resilience_runtime.AwsStore.Answers.{caught-answer, caught_unless-answer}
use agent_resilience_runtime.AwsStore.Keys.{approval_of}
use agent_resilience_runtime.AwsStore.Table.{
  Items, IsTable, IsQueueApart, update_at, meets, updated,
}
use agent_resilience_runtime.AwsStore.Steps.{decide}
use agent_resilience_runtime.AwsStore.Settled.{
  IsSettled, decided, no-Change, key_beq_refl, run-settled,
}
use agent_resilience_runtime.AwsStore.Trace.{Operation, perform_all}

verdict-decided : (approved : Bool) → is_pending (verdict approved) ≡ false
verdict-decided true = refl
verdict-decided false = refl

-- What an accepted verdict makes of the approval's item.
decided-item :
    (id action actor why : String) (approved : Bool) (t : ℕ) (o : Option Item)
    → meets (set_verdict (verdict approved) actor why t) o ≡ true
    → (j : Item) × IsSettled (approval_of id action) j
      × (Option.map (updated (set_verdict (verdict approved) actor why t)) o ≡ some j)
      × (read_status (some j) ≡ ok (some (verdict approved)))
decided-item id action actor why approved t (some (approval_item st a w c r)) h = (
  approval_item (verdict approved) (some actor) (some why) c (some t),
  decided id action (verdict approved) (some actor) (some why) c (some t)
      (verdict-decided approved),
  refl,
  refl,
)
decided-item id action actor why approved t none h = absurd (cc h)
decided-item id action actor why approved t (some (workflow_item a b c)) h = absurd (cc h)
decided-item id action actor why approved t (some (event_item a b c d)) h = absurd (cc h)
decided-item id action actor why approved t (some (result_item a b c d e)) h = absurd (cc h)

module _ {S : Type 0} (services : Services S) (queue_url : String) (dlq_url : Option String)
    (hash : Arguments → String) (items : S → Items) (table : IsTable services items)
    (apart : IsQueueApart services items) where
  accepted :
      (id action : String) (approved : Bool) (actor : String) (why : Option String) (s t : S)
      → resolve_approval services id action approved actor why s ≡ (ok tt, t)
      → let u = set_verdict (verdict approved) actor (or_empty why) (services.now s) in
        (meets u (items s (approval_key id action)) ≡ true)
        × (items t ≡ update_at (approval_key id action) u (items s))
  unfolding resolve_approval
  accepted id action approved actor why s t h =
      let u = set_verdict (verdict approved) actor (or_empty why) (services.now s) in
      let k = approval_key id action in
      let done =
        table.update_done k u s
          (elim (caught_unless-answer "resolve approval" _ _ tt (ap (λ p. p.0) h)) [
            | inl e ↦ e
            | inr (refused, e) ↦ absurd (cc e)
          ]) in
      (done.0, rw (ap (λ p. p.1) h) at done.1)

  -- What a verdict that was accepted leaves at its key.
  resolved-item :
      (id action : String) (approved : Bool) (actor : String) (why : Option String) (s t : S)
      → resolve_approval services id action approved actor why s ≡ (ok tt, t)
      → (j : Item) × IsSettled (approval_of id action) j
        × (items t (approval_key id action) ≡ some j)
        × (read_status (some j) ≡ ok (some (verdict approved)))
  resolved-item id action approved actor why s t h =
      let (met, e) = accepted id action approved actor why s t h in
      let (j, settled, found, status) =
        decided-item id action actor (or_empty why) approved (services.now s) _ met in
      (j, settled, rw (e, key_beq_refl (approval_key id action)) found, status)

  -- On a table that behaves as documented, once `resolve_approval` has returned, whatever calls
  -- several workers and operators make: where a read of the approval's status then returns, it
  -- gives that verdict, and no further verdict on the action returns.
  pub resolve_approval-final :
      (id action : String) (approved approved' : Bool) (actor actor' : String)
      (why why' : Option String) (os : List Operation) (s t u v : S) (o : Option ApprovalStatus)
      → resolve_approval services id action approved actor why s ≡ (ok tt, t)
      → approval_status services id action (perform_all services queue_url dlq_url hash os t)
        ≡ (ok o, u)
      → (o ≡ some (verdict approved))
        × (resolve_approval services id action approved' actor' why'
              (perform_all services queue_url dlq_url hash os t)
            ≢ (ok tt, v))
  unfolding approval_status
  resolve_approval-final id action approved approved' actor actor' why why' os s t u v o h r =
      let k = approval_key id action in
      let end = perform_all services queue_url dlq_url hash os t in
      let (j, settled, found, status) = resolved-item id action approved actor why s t h in
      let still : items end k ≡ some j =
        run-settled services queue_url dlq_url hash items table apart (approval_of id action) j os t
          settled found in
      let (i, got, read) = continue-ok (caught "read approval" _) _ _ u o r in
      let i_is = table.get_reads k end (caught-answer _ _ i got) ∙ still in
      (
        sym (ok_inj (sym status ∙ rw i_is at (ap (λ p. p.0) read))),
        λ again.
            no-Change (approval_of id action) j k _ settled
              (decide id action actor' (or_empty why') (verdict approved') (services.now end))
              (rw still at (accepted id action approved' actor' why' end v again).0)
              (key_beq_refl k),
      )
