-- ===== src/AwsStore/Cloud.antt =====
-- What agent_resilience/aws_store.py asks of DynamoDB and SQS, the items and messages that it writes,
-- and `_aws_error`. A date in ISO format is its microseconds, a state's JSON text the state.
use Prim.Native.String.{◌++◌ as concat}
use text.Mathlib.Text.{starts_with}
use agent_resilience_runtime.Prelude.{
  ℕ, String, Bool, Option, none, some, List, [], ◌∷◌, ◌==◌, string_eq, ◌||◌, if◌then◌else◌, any,
}
use agent_resilience_runtime.Exec.{
  Exec, Result, ok, err, Failure, retryable, permanent, other, lift, ◌>>=◌,
}
use agent_resilience_runtime.Models.{WorkflowState, ToolName}
use agent_resilience_runtime.Models.Values.{Json}
use agent_resilience_runtime.Store.{EventBody, ApprovalStatus}
use agent_resilience_runtime.AwsTools.{
  client_error, boto_core_error, Answer, answer, failure, code_of,
}

pub record Key : Type 0 where
  pub pk : String
  pub sk : String

-- The items by their `entity_type`, without their keys.
pub data Item : Type 0 where
  workflow_item : ℕ → WorkflowState → ℕ → Item
  event_item : String → String → EventBody → ℕ → Item
  result_item : String → ToolName → String → Json → ℕ → Item
  approval_item : ApprovalStatus → Option String → Option String → ℕ → Option ℕ → Item

-- The two `update_item` expressions, with their conditions `version=:expected` and `#status=:pending`.
pub data Update : Type 0 where
  set_checkpoint : ℕ → WorkflowState → Update
  set_verdict : ApprovalStatus → String → String → ℕ → Update

-- The body of a message; a key that it may lack is an option.
pub record Body : Type 0 where
  pub task_id : String
  pub attempts : Option ℕ
  pub max_attempts : Option ℕ
  pub error : Option String

pub record Message : Type 0 where
  pub body : Body
  pub receipt_handle : String
  pub receive_count : Option ℕ
  pub sent_timestamp : Option ℕ

pub record Depth : Type 0 where
  pub visible : Option ℕ
  pub not_visible : Option ℕ

-- boto3's table resource and SQS client; `put_item` takes whether the item must not exist.
pub record Services (S : Type 0) : Type 0 where
  pub now : S → ℕ
  pub new_event_id : S → String
  pub put_item : Bool → Key → Item → S → Answer (Unit {0}) × S
  pub get_item : Key → S → Answer (Option Item) × S
  pub update_item : Key → Update → S → Answer (Unit {0}) × S
  pub query_events : String → S → Answer (List Item) × S
  pub query_workflows : ℕ → S → Answer (List Item) × S
  pub send_message : String → Body → S → Answer String × S
  pub receive_message : String → ℕ → ℕ → S → Answer (List Message) × S
  pub delete_message : String → String → S → Answer (Unit {0}) × S
  pub change_message_visibility : String → String → ℕ → S → Answer (Unit {0}) × S
  pub get_queue_attributes : String → S → Answer Depth × S

module _ {S A : Type 0} where
  -- One call of a service, with its answer as a value.
  abbrev pub ask : (S → Answer A × S) → Exec S (Answer A)
  ask call s = (ok (call s).0, (call s).1)

abbrev pub retryable_codes : List String
retryable_codes =
    "InternalError" ∷ "InternalServerError" ∷ "ProvisionedThroughputExceededException"
    ∷ "RequestLimitExceeded" ∷ "RequestThrottled" ∷ "ServiceUnavailable" ∷ "ThrottlingException"
    ∷ []

-- `_aws_error`
unfoldable pub aws_error : String → Option String → Failure
aws_error operation code =
    let text = concat "AWS " (concat operation (concat " failed (" (concat (code_of code) ")"))) in
    if any (λ c. code_of code == c) retryable_codes || starts_with (code_of code) "Throttl"
    then retryable text
    else permanent text

abbrev pub conditional_check_failed : String
conditional_check_failed = "ConditionalCheckFailedException"

module _ {A : Type 0} where
  -- `except ClientError as error: raise self._aws_error(operation, error)`; another error of the
  -- client is not caught.
  abbrev pub caught : String → Answer A → Result A
  caught operation (answer a) = ok a
  caught operation (failure (client_error code)) = err (aws_error operation code)
  caught operation (failure (boto_core_error name)) = err (other name)

  -- The same with `error.response["Error"]["Code"]` compared first.
  abbrev pub caught_unless : String → Result A → Answer A → Result A
  caught_unless operation refused (answer a) = ok a
  caught_unless operation refused (failure (client_error none)) = err (other "KeyError")
  caught_unless operation refused (failure (client_error (some code))) =
      if code == conditional_check_failed then refused else err (aws_error operation (some code))
  caught_unless operation refused (failure (boto_core_error name)) = err (other name)

module _ {S A : Type 0} where
  abbrev pub asking : String → (S → Answer A × S) → Exec S A
  asking operation call = ask call >>= λ reply. lift (caught operation reply)

  abbrev pub asking_unless : String → Result A → (S → Answer A × S) → Exec S A
  asking_unless operation refused call =
      ask call >>= λ reply. lift (caught_unless operation refused reply)
