-- ===== src/AwsStore/Methods.antt =====
-- What every method of agent_resilience/aws_store.py does to the state, rule by rule.
use agent_resilience_runtime.Exec.{Result, ok, err, pure, ◌>>◌}
use agent_resilience_runtime.Prelude.{
  ℕ, String, Bool, Option, none, some, refl, true, false, ◌≡◌, if◌then◌else◌,
}
use agent_resilience_runtime.Exec.Keeps.{Moves}
use agent_resilience_runtime.Models.{WorkflowState, WorkflowStatus, Arguments, ToolName}
use agent_resilience_runtime.Models.Values.{Json}
use agent_resilience_runtime.Store.{EventBody}
use agent_resilience_runtime.AwsStore.Cloud.{Services}
use agent_resilience_runtime.AwsStore.Checkpoints.{get_workflow, save_workflow, list_workflows}
use agent_resilience_runtime.AwsStore.Queue.{
  AwsDelivery, enqueue, claim, extend_lease, retry_or_dead_letter, queue_counts, list_dead_letters,
  is_spent, hide_for, visibility_delay, bury, dead_count, dead_letters_of, dead_body, task_body,
}
use agent_resilience_runtime.AwsStore.Records.{
  record_event, list_events, create_approval, resolve_approval, approval_status, get_tool_result,
  save_tool_result, create_workflow,
}
use agent_resilience_runtime.AwsStore.Replay.{replay_dead_letter, replay_from, replay_state, resend}
use agent_resilience_runtime.AwsStore.Handles.{Handles, handle_rules}
use agent_resilience_runtime.AwsStore.Trace.{
  Operation, create, read, list, save, send, claim_next, extend, acknowledge_receipt, retry, event,
  audit, read_result, store_result, new_approval, decide, read_approval, count, list_dead, replay,
  is_acknowledge, perform,
}

module _ {S : Type 0} (services : Services S) (queue_url : String) (dlq_url : Option String)
    (hash : Arguments → String) where
  module _ {R : S → S → Type 0} (h : Handles services queue_url dlq_url R) where
    get_workflow-Moves : (id : String) → Moves R (get_workflow services id)
    unfolding get_workflow
    get_workflow-Moves id = search handle_rules depth 9

    save_workflow-Moves : (x : WorkflowState) (v : ℕ) → Moves R (save_workflow services x v)
    unfolding save_workflow
    save_workflow-Moves x v = search handle_rules depth 9

    list_workflows-Moves :
        (n : ℕ) (status : Option WorkflowStatus) → Moves R (list_workflows services n status)
    unfolding list_workflows
    list_workflows-Moves n status = search handle_rules depth 9

    record_event-Moves : (id : String) (b : EventBody) → Moves R (record_event services id b)
    unfolding record_event
    record_event-Moves id b = search handle_rules depth 9

    enqueue-Moves : (id : String) (n : ℕ) → Moves R (enqueue services queue_url id n)
    unfolding enqueue
    enqueue-Moves id n = search handle_rules depth 9

    claim-Moves : (worker : String) (n : ℕ) → Moves R (claim services queue_url worker n)
    unfolding claim
    claim-Moves worker n = search handle_rules depth 9

    extend_lease-Moves : (d : AwsDelivery) (n : ℕ) → Moves R (extend_lease services queue_url d n)
    unfolding extend_lease
    extend_lease-Moves d n = search handle_rules depth 9

    list_events-Moves : (id : String) → Moves R (list_events services id)
    unfolding list_events
    list_events-Moves id = search handle_rules depth 9

    create_approval-Moves : (id action : String) → Moves R (create_approval services id action)
    unfolding create_approval
    create_approval-Moves id action = search handle_rules depth 9

    resolve_approval-Moves :
        (id action : String) (approved : Bool) (actor : String) (why : Option String)
        → Moves R (resolve_approval services id action approved actor why)
    unfolding resolve_approval
    resolve_approval-Moves id action approved actor why = search handle_rules depth 9

    approval_status-Moves : (id action : String) → Moves R (approval_status services id action)
    unfolding approval_status
    approval_status-Moves id action = search handle_rules depth 9

    get_tool_result-Moves :
        (key : String) (a : Arguments) → Moves R (get_tool_result services hash key a)
    unfolding get_tool_result
    get_tool_result-Moves key a = search handle_rules depth 9

    save_tool_result-Moves :
        (key id : String) (t : ToolName) (a : Arguments) (v : Json)
        → Moves R (save_tool_result services hash key id t a v)
    unfolding save_tool_result
    save_tool_result-Moves key id t a v = search handle_rules depth 9

    create_workflow-Moves :
        (x : WorkflowState) (n : ℕ) → Moves R (create_workflow services queue_url x n)
    unfolding create_workflow
    create_workflow-Moves x n = search (handle_rules, record_event-Moves, enqueue-Moves) depth 9

    bury-Moves :
        (d : AwsDelivery) (why : String) (url : Option String)
        → dlq_url ≡ url
        → Moves R (bury services queue_url dlq_url d why url)
    bury-Moves d why none e = search handle_rules
    bury-Moves d why (some url) e = h.bury _ url d.receipt (dead_body d why) e

    hide_for-Moves :
        (d : AwsDelivery) (r : Result ℕ) → Moves R (hide_for services queue_url dlq_url d r)
    hide_for-Moves d (err e) = search handle_rules
    hide_for-Moves d (ok delay) = search handle_rules depth 9

    retry_or_dead_letter-Moves :
        (d : AwsDelivery) (why : String) (base : ℕ)
        → Moves R (retry_or_dead_letter services queue_url dlq_url d why base)
    unfolding retry_or_dead_letter
    retry_or_dead_letter-Moves d why base = if-Moves (is_spent d)
      where
        dlq-Moves : (error : String) → Moves R (bury services queue_url dlq_url d error dlq_url)
        dlq-Moves error = bury-Moves d error dlq_url refl

        if-Moves :
            (b : Bool)
            → Moves R (
                (if b
                  then bury services queue_url dlq_url d why dlq_url
                  else hide_for services queue_url dlq_url d (visibility_delay base d.attempts))
                >> pure (is_spent d))
        if-Moves true = search (handle_rules, dlq-Moves) depth 9
        if-Moves false = search (handle_rules, hide_for-Moves) depth 9

    dead_count-Moves : (url : Option String) → Moves R (dead_count services queue_url dlq_url url)
    dead_count-Moves none = search handle_rules
    dead_count-Moves (some url) = search handle_rules depth 9

    queue_counts-Moves : Moves R (queue_counts services queue_url dlq_url)
    unfolding queue_counts
    queue_counts-Moves = search (handle_rules, dead_count-Moves) depth 9

    dead_letters_of-Moves :
        (n : ℕ) (url : Option String) → Moves R (dead_letters_of services queue_url dlq_url n url)
    dead_letters_of-Moves n none = search handle_rules
    dead_letters_of-Moves n (some url) = search handle_rules depth 9

    resend-Moves :
        (url receipt id : String) (n : ℕ)
        → dlq_url ≡ some url
        → Moves R (resend services queue_url url receipt id n)
    resend-Moves url receipt id n e = h.revive _ url receipt (task_body id n) e

    replay_state-Moves :
        (url receipt id : String) (n : ℕ) (actor why : String) (o : Option WorkflowState)
        → dlq_url ≡ some url
        → Moves R (replay_state services queue_url url receipt id n actor why o)
    replay_state-Moves url receipt id n actor why none e = search handle_rules
    replay_state-Moves url receipt id n actor why (some x) e =
        search (handle_rules, save_workflow-Moves, record_event-Moves, dlq-Moves) depth 9
      where
        dlq-Moves : (m : ℕ) → Moves R (resend services queue_url url receipt id m)
        dlq-Moves m = resend-Moves url receipt id m e

    replay_from-Moves :
        (receipt id : String) (n : ℕ) (actor why : String) (o : Option String)
        → dlq_url ≡ o
        → Moves R (replay_from services queue_url receipt id n actor why o)
    replay_from-Moves receipt id n actor why none e = search handle_rules
    replay_from-Moves receipt id n actor why (some url) e =
        search (handle_rules, get_workflow-Moves, dlq-Moves) depth 9
      where
        dlq-Moves :
            (o : Option WorkflowState)
            → Moves R (replay_state services queue_url url receipt id n actor why o)
        dlq-Moves o = replay_state-Moves url receipt id n actor why o e

    -- Whatever a method returns or raises, the relation is kept; the acknowledgement deletes a message,
    -- and is left out.
    pub perform-Moves :
        (o : Operation) (s : S)
        → is_acknowledge o ≡ false
        → R s (perform services queue_url dlq_url hash o s)
    unfolding list_dead_letters replay_dead_letter
    perform-Moves (create x n) s e = (create_workflow-Moves x n).at s
    perform-Moves (read id) s e = (get_workflow-Moves id).at s
    perform-Moves (list n status) s e = (list_workflows-Moves n status).at s
    perform-Moves (save x v) s e = (save_workflow-Moves x v).at s
    perform-Moves (send id n) s e = (enqueue-Moves id n).at s
    perform-Moves (claim_next worker n) s e = (claim-Moves worker n).at s
    perform-Moves (extend d n) s e = (extend_lease-Moves d n).at s
    perform-Moves (acknowledge_receipt r) s e = absurd (cc e)
    perform-Moves (retry d why base) s e = (retry_or_dead_letter-Moves d why base).at s
    perform-Moves (event id b) s e = (record_event-Moves id b).at s
    perform-Moves (audit id) s e = (list_events-Moves id).at s
    perform-Moves (read_result key a) s e = (get_tool_result-Moves key a).at s
    perform-Moves (store_result key id t a v) s e = (save_tool_result-Moves key id t a v).at s
    perform-Moves (new_approval id action) s e = (create_approval-Moves id action).at s
    perform-Moves (decide id action approved actor why) s e =
        (resolve_approval-Moves id action approved actor why).at s
    perform-Moves (read_approval id action) s e = (approval_status-Moves id action).at s
    perform-Moves count s e = queue_counts-Moves.at s
    perform-Moves (list_dead n) s e = (dead_letters_of-Moves n dlq_url).at s
    perform-Moves (replay receipt id n actor why) s e =
        (replay_from-Moves receipt id n actor why dlq_url refl).at s
