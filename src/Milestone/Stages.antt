-- ===== src/Milestone/Stages.antt =====
-- The waiting loops and the stages of scripts/verify_milestone4.py.
use Prim.Native.String.{◌++◌ as concat}
use agent_resilience_runtime.Prelude.{
  ℕ, zero, suc, ◌+◌, String, Bool, true, false, Option, none, some, List, [], ◌∷◌, nat_eq,
  string_eq, if◌then◌else◌, ltb, find,
}
use agent_resilience_runtime.Exec.{Exec, other, pure, raise, gets, modify, ◌>>=◌, ◌>>◌}
use agent_resilience_runtime.Models.{
  WorkflowState, waiting_for_approval, completed, status_eq, tool_eq, truthy,
}
use agent_resilience_runtime.Store.{EventBody}
use agent_resilience_runtime.Milestone.Site.{
  Deployment, Arguments, Report, has_ended_badly, is_paused, has_resumed, has_status, is_other,
  flaw, report_of,
}

module _ {S : Type 0} (site : Deployment S) where
  open site use {
    monotonic, sleep, caller_account, create_incident, get_incident, approve, get_events,
    list_tasks, stop_task,
  }

  module _ {A : Type 0} (check : Exec S (Option A)) (pause deadline : ℕ) where
    abbrev pub found_or : Exec S (Option A) → Option A → Exec S (Option A)
    found_or rest (some a) = pure (some a)
    found_or rest none = modify (sleep pause) >> rest

    abbrev pub poll_unless : Bool → Exec S (Option A) → Exec S (Option A)
    poll_unless false rest = pure none
    poll_unless true rest = check >>= found_or rest

    -- `while time.monotonic() < deadline` on fuel: the first value that the check finds.
    unfoldable pub poll : ℕ → Exec S (Option A)
    poll zero = pure none
    poll (suc fuel) = gets monotonic >>= λ now. poll_unless (ltb now deadline) (poll fuel)

  abbrev pub or_timeout : {A : Type 0} → String → Option A → Exec S A
  or_timeout why (some a) = pure a
  or_timeout why none = raise (other why)

  abbrev pub checked :
      (WorkflowState → Bool) → String → WorkflowState → Exec S (Option WorkflowState)
  checked predicate description s =
      if predicate s
      then pure (some s)
      else if has_ended_badly s.status
      then raise (other (concat "workflow ended while waiting for " description))
      else pure none

  module _ (fuel : ℕ) (args : Arguments) where
    -- Polls until the timeout.
    abbrev pub until_found : {A : Type 0} → Exec S (Option A) → ℕ → String → ℕ → Exec S A
    until_found check pause why start =
        poll check pause (start + args.timeout) fuel >>= or_timeout why

    unfoldable pub wait_for_state : String → (WorkflowState → Bool) → String → Exec S WorkflowState
    wait_for_state id predicate description =
        gets monotonic
        >>= until_found (get_incident id >>= checked predicate description) 500_000
            (concat "timed out waiting for " description)

    unfoldable pub wait_for_replacement : String → Exec S String
    wait_for_replacement stopped =
        gets monotonic
        >>= until_found (list_tasks >>= λ tasks. pure (find (is_other stopped) tasks)) 1_000_000
            "ECS did not start a replacement worker task"

    abbrev pub only_task : List String → Exec S String
    only_task (task ∷ []) = pure task
    only_task tasks =
        raise (other "recovery proof requires exactly one running worker before termination")

    abbrev pub or_flaw : Option String → Exec S (Unit {0})
    or_flaw none = pure tt
    or_flaw (some why) = raise (other why)

    -- `verify` from the audit trail on.
    abbrev pub conclude :
        Option String
        → String
        → WorkflowState
        → String
        → WorkflowState
        → String
        → WorkflowState
        → List EventBody
        → Exec S Report
    conclude account id paused stopped resumed replacement done events =
        or_flaw (flaw paused resumed done events)
        >> pure (report_of account id paused stopped replacement done events)

    -- `verify` from the replacement on: the approval and the end of the workflow.
    abbrev pub finish :
        Option String → String → WorkflowState → String → WorkflowState → String → Exec S Report
    finish account id paused stopped resumed replacement = do
      waiting ← wait_for_state id (has_status waiting_for_approval) "production restart approval"
      approve id args.actor "Milestone 4 evidence-backed controlled recovery demonstration"
      done ← wait_for_state id (has_status completed) "approved restart and recovery verification"
      events ← get_events id
      conclude account id paused stopped resumed replacement done events

    -- `verify` from the death of the worker on.
    abbrev pub recover : Option String → String → WorkflowState → String → Exec S Report
    recover account id paused stopped = do
      stop_task stopped (concat "AgentResilience recovery proof " id)
      resumed ←
          wait_for_state id (has_resumed paused.completed_steps paused.current_step)
            "replacement worker to resume from step four"
      replacement ← wait_for_replacement stopped
      finish account id paused stopped resumed replacement

    abbrev pub kill : Option String → String → WorkflowState → Exec S Report
    kill account id paused = do
      tasks ← list_tasks
      stopped ← only_task tasks
      recover account id paused stopped

    -- `verify` from the request of the incident on.
    abbrev pub prove : Option String → Exec S Report
    prove account = do
      id ← create_incident args.goal "checkout-pool-exhaustion"
      paused ← wait_for_state id is_paused "the deterministic step-four chaos window"
      kill account id paused

    -- The identity is asked for before the incident is requested.
    unfoldable pub verify : Exec S Report
    verify =
        if truthy args.token
        then caller_account >>= prove
        else raise
            (other "ADMIN_API_TOKEN must be available in the environment or ignored .env.local")
