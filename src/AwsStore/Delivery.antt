-- ===== src/AwsStore/Delivery.antt =====
-- What agent_resilience/aws_store.py relies on of SQS, and the tasks' messages over every sequence of
-- calls: the queue and its dead-letter queue together.
use agent_resilience_runtime.Prelude.{
  ℕ, ◌+◌, ◌≤◌, String, Bool, true, false, some, List, [], ◌∷◌, ◌≡◌, ◌==◌, string_eq, arith, inl,
  inr, Bool-cases, if◌then◌else◌, beq_refl, beq_ne, some_inj, sym,
}
use agent_resilience_runtime.Exec.{Result-cases, ◌>>◌}
use agent_resilience_runtime.Models.{Arguments}
use agent_resilience_runtime.AwsTools.{answer}
use agent_resilience_runtime.AwsStore.Cloud.{Services, Key, Item, Update, Body, asking, caught}
use agent_resilience_runtime.AwsStore.Answers.{caught-answer}
use agent_resilience_runtime.AwsStore.Queue.{acknowledge}
use agent_resilience_runtime.AwsStore.Handles.{Handles}
use agent_resilience_runtime.AwsStore.Methods.{perform-Moves}
use agent_resilience_runtime.AwsStore.Trace.{
  Operation, acknowledge_receipt, is_acknowledge, perform, perform_all,
}

-- `depth` is the number of messages of a queue, visible or not. A message that is sent is stored
-- before the answer, a deletion takes one message at most, and a receipt may move a message to the
-- dead-letter queue. DynamoDB has no part in it.
pub record IsQueue {S : Type 0} (services : Services S) (queue_url dlq_url : String)
    (depth : String → S → ℕ) : Type 0 where
  pub send_keeps :
      (url u : String) (b : Body) (s : S) → depth u s ≤ depth u (services.send_message url b s).1
  pub send_done :
      (url id : String) (b : Body) (s : S)
      → (services.send_message url b s).0 ≡ answer id
      → depth url s + 1 ≤ depth url (services.send_message url b s).1
  pub delete_takes :
      (url receipt : String) (s : S)
      → depth url s ≤ depth url (services.delete_message url receipt s).1 + 1
  pub delete_other :
      (url u receipt : String) (s : S)
      → (url == u) ≡ false
      → depth u s ≤ depth u (services.delete_message url receipt s).1
  pub receive_moves :
      (url : String) (n m : ℕ) (s : S)
      → depth queue_url s + depth dlq_url s
        ≤ depth queue_url (services.receive_message url n m s).1
          + depth dlq_url (services.receive_message url n m s).1
  pub visibility_keeps :
      (url receipt u : String) (n : ℕ) (s : S)
      → depth u s ≤ depth u (services.change_message_visibility url receipt n s).1
  pub attributes_keep :
      (url u : String) (s : S) → depth u s ≤ depth u (services.get_queue_attributes url s).1
  pub get_keeps : (u : String) (k : Key) (s : S) → depth u s ≤ depth u (services.get_item k s).1
  pub put_keeps :
      (u : String) (new : Bool) (k : Key) (i : Item) (s : S)
      → depth u s ≤ depth u (services.put_item new k i s).1
  pub update_keeps :
      (u : String) (k : Key) (c : Update) (s : S)
      → depth u s ≤ depth u (services.update_item k c s).1
  pub events_keep : (u id : String) (s : S) → depth u s ≤ depth u (services.query_events id s).1
  pub workflows_keep :
      (u : String) (n : ℕ) (s : S) → depth u s ≤ depth u (services.query_workflows n s).1

-- The calls of `acknowledge` in a sequence.
abbrev pub acknowledged : List Operation → ℕ
acknowledged [] = 0
acknowledged (o ∷ os) = if is_acknowledge o then acknowledged os + 1 else acknowledged os

module _ {S : Type 0} (services : Services S) (queue_url dlq_url : String)
    (hash : Arguments → String) (depth : String → S → ℕ)
    (queue : IsQueue services queue_url dlq_url depth)
    (apart : (queue_url == dlq_url) ≡ false) where
  abbrev messages : S → ℕ
  messages s = depth queue_url s + depth dlq_url s

  abbrev Grows : S → S → Type 0
  Grows s t = messages s ≤ messages t

  -- Every queue has at least the messages that it had.
  grows : (s t : S) → ((u : String) → depth u s ≤ depth u t) → Grows s t
  grows s t h = omega (arith, h queue_url, h dlq_url)

  -- A message that is deleted from the one queue only after it was stored in the other.
  transfer :
      (op to from receipt : String) (b : Body) (s : S)
      → (from == to) ≡ false
      → let t =
          ((asking op (services.send_message to b)
              >> asking op (services.delete_message from receipt))
            s).1 in
        depth to s + depth from s ≤ depth to t + depth from t
  transfer op to from receipt b s e =
      elim (Result-cases (caught op (services.send_message to b s).0)) [
        | inl (id, got) ↦ rw got (
            let mid = (services.send_message to b s).1 in
            omega (
              arith,
              queue.send_done to id b s (caught-answer op _ id got),
              queue.send_keeps to from b s,
              queue.delete_takes from receipt mid,
              queue.delete_other from to receipt mid e,
            ))
        | inr (f, got) ↦
            rw got (omega (arith, queue.send_keeps to to b s, queue.send_keeps to from b s))
      ]

  Grows-Handles : Handles services queue_url (some dlq_url) Grows
  Grows-Handles = record {
    order = record { same = λ s. omega arith; then_ = λ s t u h k. omega (arith, h, k) };
    get = λ k s. grows s _ (λ u. queue.get_keeps u k s);
    put = λ new k i p s. grows s _ (λ u. queue.put_keeps u new k i s);
    update = λ k c p s. grows s _ (λ u. queue.update_keeps u k c s);
    events = λ id s. grows s _ (λ u. queue.events_keep u id s);
    workflows = λ n s. grows s _ (λ u. queue.workflows_keep u n s);
    send = λ url b s. grows s _ (λ u. queue.send_keeps url u b s);
    receive = queue.receive_moves;
    visibility = λ url receipt n s. grows s _ (λ u. queue.visibility_keeps url receipt u n s);
    depth = λ url s. grows s _ (λ u. queue.attributes_keep url u s);
    bury = λ op url receipt b e. record {
      at = λ s.
          rw (some_inj (sym e)) (omega (arith, transfer op dlq_url queue_url receipt b s apart));
    };
    revive = λ op url receipt b e. record {
      at = λ s. rw (some_inj (sym e)) (transfer op queue_url dlq_url receipt b s apart_sym);
    };
  }
    where
      apart_sym : (dlq_url == queue_url) ≡ false
      apart_sym =
          beq_ne dlq_url queue_url (λ same. absurd (cc (rw (same, beq_refl queue_url) at apart)))

  acknowledge-takes :
      (o : Operation) (s : S)
      → is_acknowledge o ≡ true
      → messages s ≤ messages (perform services queue_url (some dlq_url) hash o s) + 1
  unfolding acknowledge
  acknowledge-takes (acknowledge_receipt r) s e =
      omega
        (arith, queue.delete_takes queue_url r s, queue.delete_other queue_url dlq_url r s apart)
  acknowledge-takes _ s e = absurd (cc e)

  -- Where SQS behaves as documented and the queue and the dead-letter queue are two, over any calls
  -- of several workers and operators, returning or raising, the two queues together lose at most
  -- one message for each call of `acknowledge`.
  pub perform_all-keeps_messages :
      (os : List Operation) (s : S)
      → messages s
        ≤ messages (perform_all services queue_url (some dlq_url) hash os s) + acknowledged os
  perform_all-keeps_messages [] s = omega arith
  perform_all-keeps_messages (o ∷ os) s =
      let next = perform services queue_url (some dlq_url) hash o s in
      elim (Bool-cases (is_acknowledge o)) [
        | inl e ↦ rw e (omega (arith, acknowledge-takes o s e, perform_all-keeps_messages os next))
        | inr e ↦ rw e (
            omega (
              arith,
              perform-Moves services queue_url (some dlq_url) hash Grows-Handles o s e,
              perform_all-keeps_messages os next,
            ))
      ]
