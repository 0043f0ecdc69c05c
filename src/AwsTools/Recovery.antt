-- ===== src/AwsTools/Recovery.antt =====
-- When `AWSOperationsBackend` of agent_resilience/aws_tools.py reports a recovery.
use Prim.Native.String.{◌++◌ as concat}
use agent_resilience_runtime.Prelude.{
  ◌⊎◌, string_eq, ℕ, ◌≤◌, String, ap, ◌∙◌, true, none, some, List, [], ◌∷◌, ◌≡◌, refl, arith,
  Bool-cases, inl, inr, nat_eq, nat_beq_iff,
}
use mathlib.Core.Path.{subst}
use agent_resilience_runtime.Exec.{ok}
use agent_resilience_runtime.Models.{ToolName}
use agent_resilience_runtime.Models.Values.{Decimal, below_one}
use agent_resilience_runtime.AwsTools.{
  answer, Described, EcsService, Datapoint, or_zero, health_of, value_of, Clients, Health, Metrics,
  Deployment, Outcome, then_do, done, verify_recovery, service_health, read_metrics,
  checked_rollout, rollout_complete, one_rolled_out, is_low,
}
use agent_resilience_runtime.AwsTools.Evidence.{
  done_inj, then_do-done, classified-ok, service_health-IsDescribed, only_deployment,
  read_metrics-IsMeasured, value_of-IsRate, IsRate, IsNewest, IsDescribed, IsMeasured,
}
use agent_resilience_runtime.AwsTools.Tools.{
  ToolAnswer, alert, metrics, logs, health, restart, recovery, read_alert, query_logs,
  restart_service, run_tool, execute,
}

-- The evidence of a recovery, in what AWS answers: the first service that is described runs the tasks
-- that are wanted, with one deployment, which is rolled out, and the newest error rate is below one
-- percent. The report has the counts and the rate that were answered.
pub record IsRecovered (clients : Clients) (name : String) (h : Health) (m : Metrics) : Type 0 where
  pub described : Described
  pub asked : clients.describe_services name ≡ answer described
  pub no_failure : described.failures ≡ []
  pub service : EcsService
  pub others : List EcsService
  pub first : described.services ≡ service ∷ others
  pub running : or_zero service.desired_count ≤ or_zero service.running_count
  pub settled : or_zero service.pending_count ≡ 0
  pub deployment : Deployment
  pub only : service.deployments ≡ deployment ∷ []
  pub rolled_out : (deployment.rollout_state ≡ none) ⊎ (deployment.rollout_state ≡ some "COMPLETED")
  pub points : List Datapoint
  pub measured : clients.get_metric_statistics "ErrorRate" ≡ answer points
  pub point : Datapoint
  pub newest : IsNewest point points
  pub rate : Decimal
  pub read : IsRate point rate
  pub low : below_one rate ≡ true
  pub reported_health : h ≡ record {
    service = name;
    status = service.status;
    desired_count = or_zero service.desired_count;
    running_count = or_zero service.running_count;
    pending_count = or_zero service.pending_count;
    deployments = deployment ∷ [];
  }
  pub reported_rate : m.error_rate_percent ≡ some rate

complete-counts :
    (h : Health)
    → rollout_complete h ≡ true
    → (h.desired_count ≤ h.running_count)
      × (h.pending_count ≡ 0)
      × (one_rolled_out h.deployments ≡ true)
complete-counts h e = (ground arith, ground (arith, nat_beq_iff h.pending_count 0), ground arith)

recovered :
    (clients : Clients) (name : String) (h : Health) (m : Metrics)
    → IsDescribed clients name h
    → rollout_complete h ≡ true
    → IsMeasured clients m
    → IsRecovered clients name h m
recovered clients name h m d rollout k =
    let complete_ : rollout_complete (health_of name d.service) ≡ true =
      subst (λ x. rollout_complete x ≡ true) d.reported rollout in
    let counts = complete-counts (health_of name d.service) complete_ in
    let (one, only, out) = only_deployment d.service.deployments counts.2 in
    record {
      described = d.described;
      asked = d.asked;
      no_failure = d.no_failure;
      service = d.service;
      others = d.others;
      first = d.first;
      running = counts.0;
      settled = counts.1;
      deployment = one;
      only = only;
      rolled_out = out;
      points = k.points;
      measured = k.measured;
      point = k.point;
      newest = k.newest;
      rate = value_of k.point;
      read = value_of-IsRate k.point;
      low = k.low;
      reported_health = d.reported ∙ rw only refl;
      reported_rate = k.reported;
    }

module _ (clients : Clients) (prefix : String) where
  checked_rollout-IsRecovered :
      (name : String) (g h : Health) (m : Metrics)
      → IsDescribed clients name g
      → checked_rollout clients prefix g ≡ done (h, m)
      → IsRecovered clients name h m
  checked_rollout-IsRecovered name g h m d eq = elim (Bool-cases (rollout_complete g)) [
    | inr pending ↦ let e = rw pending at eq in absurd (cc e)
    | inl complete_ ↦
        let (n, got, last) = then_do-done (read_metrics clients prefix) _ _ (rw complete_ at eq) in
        elim (Bool-cases (is_low n.error_rate_percent)) [
          | inl low ↦
              let e = done_inj (rw low at last) in
              subst (λ p. IsRecovered clients name p.0 p.1) e
                (recovered clients name g n d complete_
                  (read_metrics-IsMeasured clients prefix n got low))
          | inr high ↦ let e = rw high at last in absurd (cc e)
        ]
  ]

  verify_recovery-IsRecovered :
      (requested : String) (h : Health) (m : Metrics)
      → verify_recovery clients prefix requested ≡ done (h, m)
      → IsRecovered clients (concat prefix requested) h m
  unfolding verify_recovery
  verify_recovery-IsRecovered requested h m eq =
      let (g, got, rest) = then_do-done (service_health clients prefix requested) _ _ eq in
      checked_rollout-IsRecovered (concat prefix requested) g h m
        (service_health-IsDescribed clients prefix requested g got) rest

module _ (clients : Clients) (prefix log_prefix : String) (now : ℕ) where
  -- An answer of another shape than a recovery.
  apart :
      {A : Type 0} (o : Outcome A) (f : A → ToolAnswer) (h : Health) (m : Metrics)
      → ((a : A) → f a ≡ recovery h m → ⊥)
      → then_do o (λ a. done (f a)) ≡ done (recovery h m)
      → ⊥
  apart o f h m other eq = let (a, got, e) = then_do-done o _ _ eq in other a (done_inj e)

  run_tool-IsRecovered :
      (t : ToolName) (service environment : String) (h : Health) (m : Metrics)
      → run_tool clients prefix log_prefix now t service environment ≡ done (recovery h m)
      → IsRecovered clients (concat prefix service) h m
  run_tool-IsRecovered ToolName.read_alert service environment h m eq =
      absurd (apart (read_alert clients prefix log_prefix now service) alert h m (λ a e. cc e) eq)
  run_tool-IsRecovered ToolName.inspect_metrics service environment h m eq =
      absurd (apart (read_metrics clients prefix) metrics h m (λ a e. cc e) eq)
  run_tool-IsRecovered ToolName.query_logs service environment h m eq =
      absurd (apart (query_logs clients prefix log_prefix now service) logs h m (λ a e. cc e) eq)
  run_tool-IsRecovered ToolName.dependency_health service environment h m eq =
      absurd (apart (service_health clients prefix service) health h m (λ a e. cc e) eq)
  run_tool-IsRecovered ToolName.restart_service service environment h m eq = absurd (
      apart (restart_service clients prefix log_prefix now service environment) restart h m
        (λ a e. cc e) eq)
  run_tool-IsRecovered ToolName.verify_recovery service environment h m eq =
      let (r, got, e) = then_do-done (verify_recovery clients prefix service) _ _ eq in
      let same : r ≡ (h, m) = recovery_inj r (h, m) (done_inj e) in
      verify_recovery-IsRecovered clients prefix service h m (got ∙ ap done same)
    where
      recovery_inj : (r q : Health × Metrics) → recovery r.0 r.1 ≡ recovery q.0 q.1 → r ≡ q
      recovery_inj (a, b) (c, d) e = cc e
  run_tool-IsRecovered ToolName.delete_database service environment h m eq = absurd (cc eq)

  -- Whatever the clients answer and whatever tool is executed, a recovery is reported only on evidence
  -- that they have answered: ECS described the service without a failure, at least the wanted tasks
  -- run and none is pending, it has one deployment, whose rollout is completed or has no state, and
  -- of the datapoints of the error rate one that none is later than gives a rate below one percent.
  -- The report has that service's numbers and that rate.
  pub execute-IsRecovered :
      (t : ToolName) (service environment : String) (h : Health) (m : Metrics)
      → execute clients prefix log_prefix now t service environment ≡ ok (recovery h m)
      → IsRecovered clients (concat prefix service) h m
  unfolding execute
  execute-IsRecovered t service environment h m eq =
      run_tool-IsRecovered t service environment h m (classified-ok t _ _ eq)
