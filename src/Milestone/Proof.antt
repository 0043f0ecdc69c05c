-- ===== src/Milestone/Proof.antt =====
-- What a report of scripts/verify_milestone4.py proves.
use Prim.Native.String.{◌++◌ as concat}
use agent_resilience_runtime.Prelude.{
  All, [], ◌∷◌, String, true, List, ◌≡◌, string_eq, length, is_some, count_where,
}
use mathlib.Core.List.{Memᴰ}
use agent_resilience_runtime.Exec.{Exec}
use agent_resilience_runtime.Exec.Returns.{Returns}
use agent_resilience_runtime.Models.{
  read_alert, inspect_metrics, query_logs, dependency_health, restart_service, verify_recovery,
  WorkflowState, completed,
}
use agent_resilience_runtime.Store.{EventBody}
use agent_resilience_runtime.Milestone.Site.{
  Deployment, Report, expected_steps, is_restart, contains_all, task_id,
}
use agent_resilience_runtime.Milestone.Waits.{IsListed, IsOther}

-- The evidence: ECS listed one task before it was stopped, and another one later; the checkpoint before
-- the kill had three steps and a fourth was begun; every expected step is completed, the restart once.
pub record IsProof {S : Type 0} (site : Deployment S) (r : Report) : Type 0 where
  pub stopped : String
  pub replacement : String
  pub stopped_is : r.stopped_worker_task ≡ task_id stopped
  pub replacement_is : r.replacement_worker_task ≡ task_id replacement
  pub ran_alone : IsListed site (stopped ∷ [])
  pub other_task : IsOther site stopped replacement
  pub three_steps : length r.checkpoint_before_kill ≡ 3
  pub fourth_begun : is_some r.resumed_step ≡ true
  pub finished : r.final_status ≡ completed
  pub six_steps : length r.completed_steps ≡ 6
  pub all_steps :
      All
        (λ t. Memᴰ t r.completed_steps)
        (read_alert ∷ inspect_metrics ∷ query_logs ∷ dependency_health ∷ restart_service
          ∷ verify_recovery ∷ [])
  pub one_restart : r.restart_side_effect_count ≡ 1

-- The checks that the finished workflow and its trail have passed.
record HasPassed (done : WorkflowState) (events : List EventBody) : Type 0 where
  six_steps : length done.completed_steps ≡ 6
  all_steps : contains_all expected_steps done.completed_steps ≡ true
  one_restart : count_where is_restart events ≡ 1
