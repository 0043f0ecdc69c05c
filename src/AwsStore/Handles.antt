-- ===== src/AwsStore/Handles.antt =====
-- What the calls of agent_resilience/aws_store.py do to the state of its services, from what each
-- request does: a relation that every request keeps is kept by every method.
use agent_resilience_runtime.Prelude.{ℕ, String, Bool, Option, some, ◌≡◌}
use agent_resilience_runtime.Exec.{◌>>◌}
use agent_resilience_runtime.Exec.Keeps.{IsPreorder, Moves, move_rules}
use agent_resilience_runtime.AwsTools.{Answer}
use agent_resilience_runtime.AwsStore.Cloud.{Services, Key, Item, Update, Body, ask, asking}
use agent_resilience_runtime.AwsStore.Steps.{
  Put, checkpoint, event, result, approval, Change, save, decide,
}

-- The relation is kept by a request, whatever the answer is.
abbrev pub Calls : {S A : Type 0} → (S → S → Type 0) → (S → Answer A × S) → Type 0
Calls {S} R call = (s : S) → R s (call s).1

-- Every request but the deletion of a message; a message is sent to the one queue before it is
-- deleted from the other.
pub record Handles {S : Type 0} (services : Services S) (queue_url : String)
    (dlq_url : Option String) (R : S → S → Type 0) : Type 0 where
  pub order : IsPreorder R
  pub get : (k : Key) → Calls R (services.get_item k)
  pub put : (new : Bool) (k : Key) (i : Item) → Put new k i → Calls R (services.put_item new k i)
  pub update : (k : Key) (u : Update) → Change k u → Calls R (services.update_item k u)
  pub events : (id : String) → Calls R (services.query_events id)
  pub workflows : (n : ℕ) → Calls R (services.query_workflows n)
  pub send : (url : String) (b : Body) → Calls R (services.send_message url b)
  pub receive : (url : String) (n m : ℕ) → Calls R (services.receive_message url n m)
  pub visibility :
      (url receipt : String) (n : ℕ) → Calls R (services.change_message_visibility url receipt n)
  pub depth : (url : String) → Calls R (services.get_queue_attributes url)
  pub bury :
      (op url receipt : String) (b : Body)
      → dlq_url ≡ some url
      → Moves R (
          asking op (services.send_message url b)
          >> asking op (services.delete_message queue_url receipt))
  pub revive :
      (op url receipt : String) (b : Body)
      → dlq_url ≡ some url
      → Moves R (
          asking op (services.send_message queue_url b)
          >> asking op (services.delete_message url receipt))

module _ {S : Type 0} {services : Services S} {queue_url : String} {dlq_url : Option String}
    {R : S → S → Type 0} (h : Handles services queue_url dlq_url R) where
  pub order : IsPreorder R
  order = h.order

  pub Moves-ask : {A : Type 0} (call : S → Answer A × S) → Calls R call → Moves R (ask call)
  Moves-ask call k = record { at = k }

  pub Calls-get : (k : Key) → Calls R (services.get_item k)
  Calls-get = h.get

  pub Calls-put :
      (new : Bool) (k : Key) (i : Item) → Put new k i → Calls R (services.put_item new k i)
  Calls-put = h.put

  pub Calls-update : (k : Key) (u : Update) → Change k u → Calls R (services.update_item k u)
  Calls-update = h.update

  pub Calls-events : (id : String) → Calls R (services.query_events id)
  Calls-events = h.events

  pub Calls-workflows : (n : ℕ) → Calls R (services.query_workflows n)
  Calls-workflows = h.workflows

  pub Calls-send : (url : String) (b : Body) → Calls R (services.send_message url b)
  Calls-send = h.send

  pub Calls-receive : (url : String) (n m : ℕ) → Calls R (services.receive_message url n m)
  Calls-receive = h.receive

  pub Calls-visibility :
      (url receipt : String) (n : ℕ) → Calls R (services.change_message_visibility url receipt n)
  Calls-visibility = h.visibility

  pub Calls-depth : (url : String) → Calls R (services.get_queue_attributes url)
  Calls-depth = h.depth

pub ruleset handle_rules = (
  move_rules, order, Moves-ask, Calls-put, Calls-update, Calls-get, Calls-events, Calls-workflows,
  Calls-send, Calls-receive, Calls-visibility, Calls-depth, checkpoint, event, result, approval,
  save, decide,
)
