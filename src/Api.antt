-- ===== src/Api.antt =====
-- agent_resilience/api.py: the control plane's authorisation, the creation of incidents, approval,
-- rejection and the replay of dead letters. Routing and HTTP are FastAPI's.
pub mod Trace
pub mod Summary
pub mod Access
pub mod Stuck
pub mod Race
pub mod Granted
use Prim.Native.String.{◌++◌ as concat}
use Prim.Native.Char.{code}
use agent_resilience_runtime.Prelude.{
  ltb, ℕ, String, Bool, true, false, not, Option, none, some, ◌==◌, string_eq, ◌&&◌, if◌then◌else◌,
}
use agent_resilience_runtime.Exec.{
  Failure, other, http_exception, Result, ok, err, pure, raise, gets, ◌>>=◌, ◌>>◌,
}
use agent_resilience_runtime.Models.{
  WorkflowState, queued, waiting_for_approval, human_rejected, status_eq, PendingAction,
  new_workflow, truthy,
}
use agent_resilience_runtime.Store.{
  EventBody, Run, get_workflow, create_workflow, save_workflow, resolve_approval, record_event,
  enqueue, replay_dead_letter,
}

-- The tokens of config.py.
pub record Tokens : Type 0 where
  pub admin_api_token : Option String
  pub viewer_api_token : Option String

abbrev pub is_ascii : String → Bool
is_ascii String.[] = true
is_ascii (String.◌∷◌ c s) = ltb (code c) 128 && is_ascii s

-- The `TypeError` of `compare_digest`, which no endpoint catches.
abbrev pub not_ascii : Failure
not_ascii = other "comparing strings with non-ASCII characters is not supported"

-- `hmac.compare_digest(authorization, f"Bearer {token}")`, where there is a token and a header.
abbrev pub bears : Option String → Option String → Result Bool
bears (some token) (some header) =
    if is_ascii header && is_ascii token
    then ok (header == concat "Bearer " token)
    else err not_ascii
bears _ _ = ok false

-- A comparison that may raise, and what is done on either answer.
abbrev pub if_ok : {A : Type 0} → Result Bool → Result A → Result A → Result A
if_ok (ok true) yes_ no_ = yes_
if_ok (ok false) yes_ no_ = no_
if_ok (err e) yes_ no_ = err e

-- `require_admin`
unfoldable pub require_admin : Tokens → Option String → Result (Unit {0})
require_admin t header =
    if not (truthy t.admin_api_token)
    then ok tt
    else if_ok (bears t.admin_api_token header) (ok tt)
        (err (http_exception 401 "valid administrator bearer token required"))

pub data Role : Type 0 where
  administrator viewer : Role

-- `token and authorization and hmac.compare_digest(...)`
abbrev pub bears_if : Option String → Option String → Result Bool
bears_if token header = if truthy token && truthy header then bears token header else ok false

-- `require_viewer`: an empty token admits nobody, and neither does an empty header.
unfoldable pub require_viewer : Tokens → Option String → Result Role
require_viewer t header =
    if not (truthy t.admin_api_token) && not (truthy t.viewer_api_token)
    then ok administrator
    else if_ok (bears_if t.admin_api_token header) (ok administrator) (
        if_ok (bears_if t.viewer_api_token header) (ok viewer)
          (err (http_exception 401 "valid control-plane bearer token required")))

-- `_required`
abbrev pub or_not_found : Option WorkflowState → Run WorkflowState
or_not_found none = raise (http_exception 404 "workflow not found")
or_not_found (some s) = pure s

unfoldable pub required : String → Run WorkflowState
required id = do found ← get_workflow id; or_not_found found

-- `create_incident`: the new id is uuid's, an argument.
unfoldable pub create_incident : String → String → String → ℕ → Run WorkflowState
create_incident id goal scenario max = do
  now ← gets (λ w. w.now)
  create_workflow (new_workflow id goal scenario now) max

abbrev pub is_waiting : WorkflowState → Bool
is_waiting s = s.status == waiting_for_approval

abbrev pub grant :
    String → Option PendingAction → WorkflowState → String → Option String → ℕ → Run WorkflowState
grant id none s actor why max = raise (http_exception 409 "workflow is not waiting for approval")
grant id (some p) s actor why max = do
  resolve_approval id p.action_id true actor why
  saved ← save_workflow (record s { status = queued }) s.version
  record_event id (EventBody.approval_granted actor why)
  enqueue id max
  pure saved

-- `approve`
unfoldable pub approve : String → String → Option String → ℕ → Run WorkflowState
approve id actor why max = do
  s ← required id
  if not (is_waiting s)
      then raise (http_exception 409 "workflow is not waiting for approval")
      else grant id s.pending_action s actor why max

abbrev pub rejection_reason : Option String → Option String
rejection_reason why = if truthy why then why else some "human rejected the proposed action"

abbrev pub rejected_state : WorkflowState → Option String → WorkflowState
rejected_state s why = record s {
  status = human_rejected;
  last_error = rejection_reason why;
  pending_action = none;
}

abbrev pub refuse :
    String → Option PendingAction → WorkflowState → String → Option String → Run WorkflowState
refuse id none s actor why = raise (http_exception 409 "workflow is not waiting for approval")
refuse id (some p) s actor why = do
  resolve_approval id p.action_id false actor why
  saved ← save_workflow (rejected_state s why) s.version
  record_event id (EventBody.approval_rejected actor why)
  pure saved

-- `reject`
unfoldable pub reject : String → String → Option String → Run WorkflowState
reject id actor why = do
  s ← required id
  if not (is_waiting s)
      then raise (http_exception 409 "workflow is not waiting for approval")
      else refuse id s.pending_action s actor why

abbrev pub or_no_delivery : Option WorkflowState → Run WorkflowState
or_no_delivery none = raise (http_exception 404 "dead-letter delivery not found")
or_no_delivery (some s) = pure s

-- `replay_dead_letter`
unfoldable pub replay : ℕ → String → ℕ → String → String → Run WorkflowState
replay i id max actor why = do found ← replay_dead_letter i id max actor why; or_no_delivery found
