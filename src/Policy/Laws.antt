-- ===== src/Policy/Laws.antt =====
-- What the policy of agent_resilience/policy.py lets through.
use agent_resilience_runtime.Prelude.{◌≡◌, ◌≢◌, ◌↔◌, true, false, none, arith}
use agent_resilience_runtime.Models.{
  ToolName, read_alert, delete_database, restart_service, high, blocked, Arguments, argument,
}
use agent_resilience_runtime.Policy.{evaluate, is_production}

-- A tool may run without an approval exactly if it is not the deletion of a database, and not a
-- restart whose environment is production.
pub evaluate-unattended :
    (tool : ToolName) (a : Arguments)
    → (((evaluate tool a).allowed ≡ true) × ((evaluate tool a).approval_required ≡ false))
      ↔ ((tool ≢ delete_database) × (tool ≡ restart_service → is_production a ≡ false))
unfolding evaluate
evaluate-unattended read_alert a = ground arith
evaluate-unattended _ a = ground arith

-- The risk is `BLOCKED` exactly where nothing is allowed, and `HIGH` exactly where an approval is
-- required; nothing that is not allowed asks for an approval.
pub evaluate-risk :
    (tool : ToolName) (a : Arguments)
    → (((evaluate tool a).risk ≡ blocked) ↔ ((evaluate tool a).allowed ≡ false))
      × (((evaluate tool a).risk ≡ high) ↔ ((evaluate tool a).approval_required ≡ true))
      × ((evaluate tool a).approval_required ≡ true → (evaluate tool a).allowed ≡ true)
unfolding evaluate
evaluate-risk read_alert a = ground arith
evaluate-risk _ a = ground arith

-- A restart that names no environment counts as one in production.
pub evaluate-default :
    (a : Arguments)
    → argument "environment" a ≡ none
    → (evaluate restart_service a).approval_required ≡ true
unfolding evaluate is_production
evaluate-default a h = rw h
