-- ===== src/AwsStore/Queue.antt =====
-- agent_resilience/aws_store.py: the queue of tasks and its dead-letter queue in SQS. A payload is
-- always empty, and is left out; delays are whole seconds.
use agent_resilience_runtime.Prelude.{
  ℕ, ◌*◌, ◌-◌, ◌^◌, ◌/◌, min, String, Bool, Option, none, some, List, [], ◌∷◌, if◌then◌else◌, leb,
  map,
}
use agent_resilience_runtime.Exec.{Exec, Result, ok, err, permanent, pure, raise, ◌>>=◌, ◌>>◌}
use agent_resilience_runtime.Store.{stored_error, second, overflow_error}
use agent_resilience_runtime.Store.Lists.{bounded}
use agent_resilience_runtime.AwsStore.Cloud.{Services, Body, Message, asking}

-- `QueueDelivery`, whose id is the receipt.
pub record AwsDelivery : Type 0 where
  pub receipt : String
  pub task_id : String
  pub attempts : ℕ
  pub max_attempts : ℕ

pub record AwsDeadLetter : Type 0 where
  pub id : String
  pub task_id : String
  pub attempts : ℕ
  pub max_attempts : ℕ
  pub last_error : Option String
  pub updated_at : ℕ

pub record QueueCounts : Type 0 where
  pub pending : ℕ
  pub processing : ℕ
  pub dead : Option ℕ

abbrev pub or_default : ℕ → Option ℕ → ℕ
or_default d none = d
or_default d (some n) = n

abbrev pub delivery_of : Message → AwsDelivery
delivery_of m = record {
  receipt = m.receipt_handle;
  task_id = m.body.task_id;
  attempts = or_default 1 m.receive_count;
  max_attempts = or_default 5 m.body.max_attempts;
}

abbrev pub first_delivery : List Message → Option AwsDelivery
first_delivery [] = none
first_delivery (m ∷ _) = some (delivery_of m)

abbrev pub dead_letter_of : Message → AwsDeadLetter
dead_letter_of m = record {
  id = m.receipt_handle;
  task_id = m.body.task_id;
  attempts = or_default (or_default 1 m.receive_count) m.body.attempts;
  max_attempts = or_default 5 m.body.max_attempts;
  last_error = m.body.error;
  updated_at = or_default 0 m.sent_timestamp;
}

abbrev pub task_body : String → ℕ → Body
task_body id limit = record {
  task_id = id;
  attempts = none;
  max_attempts = some limit;
  error = none;
}

abbrev pub dead_body : AwsDelivery → String → Body
dead_body d error = record {
  task_id = d.task_id;
  attempts = some d.attempts;
  max_attempts = some d.max_attempts;
  error = some (stored_error error);
}

-- `int(min(900, base_delay_seconds * (2 ** max(0, delivery.attempts - 1))))`, with the base in
-- microseconds. The float product raises like that of store.py.
unfoldable pub visibility_delay : ℕ → ℕ → Result ℕ
visibility_delay base attempts =
    if leb attempts 1_024
    then ok (min (900 * second) (base * 2 ^ (attempts - 1)) / second)
    else err overflow_error

abbrev pub is_spent : AwsDelivery → Bool
is_spent d = leb d.max_attempts d.attempts

module _ {S : Type 0} (services : Services S) (queue_url : String) where
  open services use {
    send_message, receive_message, delete_message, change_message_visibility, get_queue_attributes,
  }

  unfoldable pub enqueue : String → ℕ → Exec S String
  enqueue id limit = asking "enqueue task" (send_message queue_url (task_body id limit))

  unfoldable pub claim : String → ℕ → Exec S (Option AwsDelivery)
  claim worker lease = do
    messages ← asking "claim task" (receive_message queue_url 1 lease)
    pure (first_delivery messages)

  unfoldable pub extend_lease : AwsDelivery → ℕ → Exec S (Unit {0})
  extend_lease d lease =
      asking "extend queue visibility" (change_message_visibility queue_url d.receipt lease)

  unfoldable pub acknowledge : String → Exec S (Unit {0})
  acknowledge receipt = asking "acknowledge task" (delete_message queue_url receipt)

  -- `if self.dlq_url`: no URL is given, or an empty one, which is read as none.
  module _ (dlq_url : Option String) where
    abbrev pub bury : AwsDelivery → String → Option String → Exec S (Unit {0})
    bury d error none = raise (permanent "SQS_DLQ_URL is required to dead-letter tasks explicitly")
    bury d error (some url) = do
      asking "retry or dead-letter task" (send_message url (dead_body d error))
      asking "retry or dead-letter task" (delete_message queue_url d.receipt)

    abbrev pub hide_for : AwsDelivery → Result ℕ → Exec S (Unit {0})
    hide_for d (err e) = raise e
    hide_for d (ok delay) =
        asking "retry or dead-letter task" (change_message_visibility queue_url d.receipt delay)

    abbrev pub hide : AwsDelivery → ℕ → Exec S (Unit {0})
    hide d base = hide_for d (visibility_delay base d.attempts)

    unfoldable pub retry_or_dead_letter : AwsDelivery → String → ℕ → Exec S Bool
    retry_or_dead_letter d error base = do
      if is_spent d then bury d error dlq_url else hide d base
      pure (is_spent d)

    abbrev pub dead_count : Option String → Exec S (Option ℕ)
    dead_count none = pure none
    dead_count (some url) = do
      depth ← asking "read queue depth" (get_queue_attributes url)
      pure (some (or_default 0 depth.visible))

    unfoldable pub queue_counts : Exec S QueueCounts
    queue_counts = do
      main ← asking "read queue depth" (get_queue_attributes queue_url)
      dead ← dead_count dlq_url
      pure (record {
        pending = or_default 0 main.visible;
        processing = or_default 0 main.not_visible;
        dead = dead;
      })

    abbrev pub dead_letters_of : ℕ → Option String → Exec S (List AwsDeadLetter)
    dead_letters_of limit none = pure []
    dead_letters_of limit (some url) = do
      messages ← asking "list dead letters" (receive_message url (bounded limit 10) 0)
      pure (map dead_letter_of messages)

    unfoldable pub list_dead_letters : ℕ → Exec S (List AwsDeadLetter)
    list_dead_letters limit = dead_letters_of limit dlq_url
