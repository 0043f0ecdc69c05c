-- ===== src/AwsStore/Results.antt =====
-- The idempotency records of agent_resilience/aws_store.py.
use agent_resilience_runtime.Prelude.{
  String, true, Option, none, some, List, ◌≡◌, refl, sym, ap, ◌∙◌, inl, inr, ◌==◌, string_eq,
  beq_refl, Bool-cases,
}
use agent_resilience_runtime.Exec.{ok, ok_inj}
use agent_resilience_runtime.Exec.Returns.{continue-ok}
use agent_resilience_runtime.Models.{Arguments, ToolName}
use agent_resilience_runtime.Models.Values.{Json}
use agent_resilience_runtime.AwsStore.Cloud.{
  Services, caught, Item, result_item, workflow_item, event_item, approval_item,
}
use agent_resilience_runtime.AwsStore.Records.{
  get_tool_result, save_tool_result, read_result, result_key,
}
use agent_resilience_runtime.AwsStore.Answers.{caught-answer, caught_unless-answer}
use agent_resilience_runtime.AwsStore.Keys.{result_of}
use agent_resilience_runtime.AwsStore.Table.{Items, IsTable, IsQueueApart, write}
use agent_resilience_runtime.AwsStore.Settled.{kept, key_beq_refl, run-settled}
use agent_resilience_runtime.AwsStore.Trace.{Operation, perform_all}

module _ {S : Type 0} (services : Services S) (queue_url : String) (dlq_url : Option String)
    (hash : Arguments → String) (items : S → Items) (table : IsTable services items)
    (apart : IsQueueApart services items) where
  -- What a read that returns has read.
  read-item :
      (key : String) (a : Arguments) (s t : S) (o : Option Json)
      → get_tool_result services hash key a s ≡ (ok o, t)
      → (read_result services hash a (items s (result_key key)) ≡ ok o) × (items t ≡ items s)
  unfolding get_tool_result
  read-item key a s t o h =
      let reply = services.get_item (result_key key) s in
      let (i, got, read) = continue-ok (caught "read idempotency result" reply.0) _ reply.1 t o h in
      let i_is = table.get_reads (result_key key) s (caught-answer _ _ i got) in
      (
        rw i_is at (ap (λ p. p.0) read),
        ap items (sym (ap (λ p. p.1) read)) ∙ table.get_keeps (result_key key) s,
      )

  read-none : (a : Arguments) (i : Option Item) → read_result services hash a i ≡ ok none → i ≡ none
  read-none a none h = refl
  read-none a (some (result_item task tool d v c)) h = elim (Bool-cases (d == hash a)) [
    | inl e ↦ let h' = rw e at h in absurd (cc (ok_inj h'))
    | inr e ↦ let h' = rw e at h in absurd (cc h')
  ]
  read-none a (some (workflow_item b c d)) h = absurd (cc h)
  read-none a (some (event_item b c d e)) h = absurd (cc h)
  read-none a (some (approval_item b c d e f)) h = absurd (cc h)

  -- What a save that returns leaves under a key that had no item.
  saved-item :
      (key id : String) (tool : ToolName) (a : Arguments) (v : Json) (s t : S)
      → items s (result_key key) ≡ none
      → save_tool_result services hash key id tool a v s ≡ (ok tt, t)
      → items t (result_key key) ≡ some (result_item id tool (hash a) v (services.now s))
  unfolding save_tool_result
  saved-item key id tool a v s t missing h =
      let k = result_key key in
      let i = result_item id tool (hash a) v (services.now s) in
      let reply = services.put_item true k i s in
      let written : items reply.1 ≡ write k i (items s) → items reply.1 k ≡ some i =
        λ e. rw (e, key_beq_refl k) refl in
      let found : items reply.1 k ≡ some i =
        elim (caught_unless-answer "save idempotency result" (ok tt) reply.0 tt (ap (λ p. p.0) h)) [
          | inl e ↦ written (table.put_done true k i s e).1
          | inr (refused, e) ↦ elim (table.put_moves true k i s) [
            | inl same ↦
                let there = rw (same, missing) at (table.put_refused k i s refused) in
                absurd (cc there)
            | inr (guard, moved) ↦ written moved
          ]
        ] in
      rw (ap (λ p. p.1) h) at found

  -- On a table that behaves as documented, where a read finds no result under the key and a save in
  -- the state that it leaves returns, after whatever calls of several workers, other saves under
  -- the key among them, a read with the same arguments that returns gives the saved result.
  pub get_tool_result-after-save :
      (key id : String) (tool : ToolName) (a : Arguments) (v : Json) (os : List Operation)
      (r s t u : S) (o : Option Json)
      → get_tool_result services hash key a r ≡ (ok none, s)
      → save_tool_result services hash key id tool a v s ≡ (ok tt, t)
      → get_tool_result services hash key a (perform_all services queue_url dlq_url hash os t)
        ≡ (ok o, u)
      → o ≡ some v
  get_tool_result-after-save key id tool a v os r s t u o first saved again =
      let k = result_key key in
      let empty = read-item key a r s none first in
      let found =
        saved-item key id tool a v s t (ap (λ f. f k) empty.1 ∙ read-none a _ empty.0) saved in
      let still =
        run-settled services queue_url dlq_url hash items table apart (result_of key) _ os t
          (kept key _) found in
      sym (ok_inj (rw (still, beq_refl (hash a)) at (read-item key a _ u o again).0))
