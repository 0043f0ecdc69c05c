-- ===== src/Api/Trace.antt =====
-- The operations of agent_resilience/api.py as sequences of operations of the store.
use agent_resilience_runtime.Prelude.{ℕ, String, Option, none, some}
use agent_resilience_runtime.Exec.Keeps.{Moves}
use agent_resilience_runtime.Models.{WorkflowState, PendingAction}
use agent_resilience_runtime.Store.Trace.{Reaches, reach_rules}
use agent_resilience_runtime.Api.{
  or_not_found, required, create_incident, grant, approve, refuse, reject, or_no_delivery, replay,
}

or_not_found-Reaches : (o : Option WorkflowState) → Moves Reaches (or_not_found o)
or_not_found-Reaches none = search reach_rules
or_not_found-Reaches (some s) = search reach_rules

required-Reaches : (id : String) → Moves Reaches (required id)
unfolding required
required-Reaches id = search (reach_rules, or_not_found-Reaches)

grant-Reaches :
    (id : String) (o : Option PendingAction) (s : WorkflowState) (actor : String)
    (why : Option String) (max : ℕ)
    → Moves Reaches (grant id o s actor why max)
grant-Reaches id none s actor why max = search reach_rules
grant-Reaches id (some p) s actor why max = search reach_rules depth 9

refuse-Reaches :
    (id : String) (o : Option PendingAction) (s : WorkflowState) (actor : String)
    (why : Option String)
    → Moves Reaches (refuse id o s actor why)
refuse-Reaches id none s actor why = search reach_rules
refuse-Reaches id (some p) s actor why = search reach_rules

create_incident-Reaches :
    (id goal scenario : String) (max : ℕ) → Moves Reaches (create_incident id goal scenario max)
unfolding create_incident
create_incident-Reaches id goal scenario max = search reach_rules

approve-Reaches :
    (id actor : String) (why : Option String) (max : ℕ) → Moves Reaches (approve id actor why max)
unfolding approve
approve-Reaches id actor why max = search (reach_rules, required-Reaches, grant-Reaches)

reject-Reaches : (id actor : String) (why : Option String) → Moves Reaches (reject id actor why)
unfolding reject
reject-Reaches id actor why = search (reach_rules, required-Reaches, refuse-Reaches)

or_no_delivery-Reaches : (o : Option WorkflowState) → Moves Reaches (or_no_delivery o)
or_no_delivery-Reaches none = search reach_rules
or_no_delivery-Reaches (some s) = search reach_rules

replay-Reaches :
    (i : ℕ) (id : String) (max : ℕ) (actor why : String) → Moves Reaches (replay i id max actor why)
unfolding replay
replay-Reaches i id max actor why = search (reach_rules, or_no_delivery-Reaches)

-- Every operation of the control plane that writes, whatever it returns or raises, leaves the world
-- as some sequence of the store's operations would leave it: the creation of an incident, an
-- approval, a rejection and the replay of a dead letter.
pub api-Reaches :
    (i : ℕ) (id goal scenario actor text : String) (why : Option String) (max : ℕ)
    → Moves Reaches (create_incident id goal scenario max)
      × Moves Reaches (approve id actor why max)
      × Moves Reaches (reject id actor why)
      × Moves Reaches (replay i id max actor text)
api-Reaches i id goal scenario actor text why max = (
  create_incident-Reaches id goal scenario max,
  approve-Reaches id actor why max,
  reject-Reaches id actor why,
  replay-Reaches i id max actor text,
)
