-- ===== src/AwsTools/Evidence.antt =====
-- What the answers of AWS were, where `_service_health` and `_inspect_metrics` of
-- agent_resilience/aws_tools.py have reported on them.
use Prim.Native.String.{◌++◌ as concat}
use agent_resilience_runtime.Prelude.{
  false, ◌⊎◌, sym, string_eq, leb, take, All, All-map, Option-cases, some_inj, ◌≤◌, String, ap,
  true, Option, none, some, List, [], ◌∷◌, ◌≡◌, refl, arith, Bool-cases, inl, inr, nat_eq,
}
use mathlib.Core.Path.{subst}
use mathlib.Core.List.{Memᴰ}
use agent_resilience_runtime.Exec.{ok, ok_inj}
use agent_resilience_runtime.Models.{ToolName}
use agent_resilience_runtime.Models.Values.{Decimal, below_one}
use agent_resilience_runtime.AwsTools.{
  Answer, answer, failure, asking, Described, EcsService, Datapoint, health_of, first_service,
  health_answer, value_of, later, latest, metric_value, Clients, Health, Metrics, Deployment,
  Outcome, then_do, done, raised, service_health, read_metrics, one_rolled_out, is_rolled_out,
  is_low, classified, runtime_error, aws_error,
}

-- The rate that a datapoint gives: the statistic that was asked for, else the average, else zero.
abbrev pub IsRate : Datapoint → Decimal → Type 0
IsRate p rate =
    (p.statistic ≡ some rate)
    ⊎ ((p.statistic ≡ none)
        × ((p.average ≡ some rate)
            ⊎ ((p.average ≡ none) × (rate ≡ record { negative = false; mantissa = 0; scale = 0 }))))

-- One of the datapoints, and none is later.
pub record IsNewest (p : Datapoint) (points : List Datapoint) : Type 0 where
  pub present : Memᴰ p points
  pub newest : All (λ q. q.timestamp ≤ p.timestamp) points

pub done_inj : {A : Type 0} {a b : A} → done a ≡ done b → a ≡ b
done_inj h = cc

asking-done : {A : Type 0} (x : Answer A) (a : A) → asking x ≡ done a → x ≡ answer a
asking-done (answer b) a h = ap answer (done_inj h)
asking-done (failure e) a h = absurd (cc h)

pub then_do-done :
    {A B : Type 0} (o : Outcome A) (f : A → Outcome B) (b : B)
    → then_do o f ≡ done b
    → (a : A) × (o ≡ done a) × (f a ≡ done b)
then_do-done (done a) f b h = (a, refl, h)
then_do-done (raised e) f b h = absurd (cc h)

pub classified-ok :
    {A : Type 0} (t : ToolName) (o : Outcome A) (a : A) → classified t o ≡ ok a → o ≡ done a
classified-ok t (done b) a h = ap done (ok_inj h)
classified-ok t (raised (runtime_error e)) a h = absurd (cc h)
classified-ok t (raised (aws_error e)) a h = absurd (cc h)

-- What a report of the health says of the answer.
pub record IsDescribed (clients : Clients) (name : String) (h : Health) : Type 0 where
  pub described : Described
  pub asked : clients.describe_services name ≡ answer described
  pub no_failure : described.failures ≡ []
  pub service : EcsService
  pub others : List EcsService
  pub first : described.services ≡ service ∷ others
  pub reported : h ≡ health_of name service

first_service-done :
    (name : String) (services : List EcsService) (h : Health)
    → first_service name services ≡ done h
    → (s : EcsService) × (rest : List EcsService) × (services ≡ s ∷ rest) × (h ≡ health_of name s)
first_service-done name [] h e = absurd (cc e)
first_service-done name (s ∷ rest) h e = (s, rest, refl, sym (done_inj e))

health_answer-done :
    (name : String) (d : Described) (h : Health)
    → health_answer name d ≡ done h
    → (d.failures ≡ []) × (first_service name d.services ≡ done h)
health_answer-done name d h e = elim (List-cases d.failures) [
  | inl nothing ↦ (nothing, rw nothing at e)
  | inr (reason, rest, some_) ↦ let e' = rw some_ at e in absurd (cc e')
]
  where
    List-cases : {A : Type 0} (xs : List A) → (xs ≡ []) ⊎ ((x : A) × (ys : List A) × (xs ≡ x ∷ ys))
    List-cases [] = inl refl
    List-cases (x ∷ xs) = inr (x, xs, refl)

pub service_health-IsDescribed :
    (clients : Clients) (prefix requested : String) (h : Health)
    → service_health clients prefix requested ≡ done h
    → IsDescribed clients (concat prefix requested) h
unfolding service_health
service_health-IsDescribed clients prefix requested h e =
    let name = concat prefix requested in
    let (d, asked, found) = then_do-done (asking (clients.describe_services name)) _ h e in
    let (good, first) = health_answer-done name d h found in
    let (s, rest, is_first, reported) = first_service-done name d.services h first in
    record {
      described = d;
      asked = asking-done _ d asked;
      no_failure = good;
      service = s;
      others = rest;
      first = is_first;
      reported = reported;
    }

rolled : (o : Option String) → is_rolled_out o ≡ true → (o ≡ none) ⊎ (o ≡ some "COMPLETED")
rolled none h = inl refl
rolled (some s) h = inr (ap some ((string_eq.beq_iff s "COMPLETED").0 h))

-- The one deployment of a service whose first five are one.
pub only_deployment :
    (ds : List Deployment)
    → one_rolled_out (take 5 ds) ≡ true
    → (d : Deployment) × (ds ≡ d ∷ [])
      × ((d.rollout_state ≡ none) ⊎ (d.rollout_state ≡ some "COMPLETED"))
only_deployment [] h = absurd (cc h)
only_deployment (d ∷ []) h = (d, refl, rolled d.rollout_state h)
only_deployment (d ∷ e ∷ ds) h = absurd (cc h)

latest-IsNewest :
    (points : List Datapoint) (p : Datapoint) → latest points ≡ some p → IsNewest p points
latest-IsNewest [] p h = absurd (cc h)
latest-IsNewest (q ∷ points) p h =
    with_rest (latest points) refl (latest-IsNewest points) (some_inj h)
  where
    none-empty : (points : List Datapoint) → latest points ≡ none → points ≡ []
    none-empty [] h = refl
    none-empty (q ∷ points) h = absurd (cc h)

    with_rest :
        (o : Option Datapoint)
        → latest points ≡ o
        → ((r : Datapoint) → latest points ≡ some r → IsNewest r points)
        → later q o ≡ p
        → IsNewest p (q ∷ points)
    with_rest none e ih same =
        subst (λ x. IsNewest x (q ∷ points)) same
          (rw (none-empty points e)
            (record { present = Memᴰ.head refl; newest = (omega arith, tt) }))
    with_rest (some r) e ih same = elim (Bool-cases (leb r.timestamp q.timestamp)) [
      | inl front ↦
          subst (λ x. IsNewest x (q ∷ points)) (rw front at same)
            (record {
              present = Memᴰ.head refl;
              newest = (omega arith, All-map (λ x k. before x k front) points (ih r e).newest);
            })
      | inr back ↦
          subst (λ x. IsNewest x (q ∷ points)) (rw back at same)
            (record {
              present = Memᴰ.tail (ih r e).present;
              newest = (ground arith, (ih r e).newest);
            })
    ]
      where
        before :
            (x : Datapoint)
            → x.timestamp ≤ r.timestamp
            → leb r.timestamp q.timestamp ≡ true
            → x.timestamp ≤ q.timestamp
        before x k front = ground arith

pub value_of-IsRate : (p : Datapoint) → IsRate p (value_of p)
value_of-IsRate p = elim (Option-cases p.statistic) [
  | inr (v, e) ↦ rw e (inl refl)
  | inl e ↦ elim (Option-cases p.average) [
    | inr (v, a) ↦ rw (e, a) (inr (refl, inl refl))
    | inl a ↦ rw (e, a) (inr (refl, inr (refl, refl)))
  ]
]

-- What a report of low metrics says of the answer.
pub record IsMeasured (clients : Clients) (m : Metrics) : Type 0 where
  pub points : List Datapoint
  pub measured : clients.get_metric_statistics "ErrorRate" ≡ answer points
  pub point : Datapoint
  pub newest : IsNewest point points
  pub low : below_one (value_of point) ≡ true
  pub reported : m.error_rate_percent ≡ some (value_of point)

pub read_metrics-IsMeasured :
    (clients : Clients) (prefix : String) (m : Metrics)
    → read_metrics clients prefix ≡ done m
    → is_low m.error_rate_percent ≡ true
    → IsMeasured clients m
unfolding read_metrics
read_metrics-IsMeasured clients prefix m e low =
    let (errors, asked, rest) =
      then_do-done (asking (clients.get_metric_statistics "ErrorRate")) _ m e in
    let (latencies, _, same) =
      then_do-done (asking (clients.get_metric_statistics "Latency")) _ m rest in
    let rate : metric_value (latest errors) ≡ m.error_rate_percent =
      ap (λ x. x.error_rate_percent) (done_inj same) in
    of_latest errors (asking-done _ errors asked) (latest errors) refl rate
  where
    of_latest :
        (errors : List Datapoint)
        → clients.get_metric_statistics "ErrorRate" ≡ answer errors
        → (o : Option Datapoint) → latest errors ≡ o
        → metric_value o ≡ m.error_rate_percent
        → IsMeasured clients m
    of_latest errors asked none e rate = let l = rw (sym rate) at low in absurd (cc l)
    of_latest errors asked (some p) e rate = record {
      points = errors;
      measured = asked;
      point = p;
      newest = latest-IsNewest errors p e;
      low = rw (sym rate) at low;
      reported = sym rate;
    }
