-- ===== src/Api/Access.antt =====
-- `require_admin` and `require_viewer` of agent_resilience/api.py against each other.
use agent_resilience_runtime.Prelude.{String, true, false, Option, none, ◌≡◌, arith, string_eq}
use agent_resilience_runtime.Exec.{http_exception, ok, err}
use agent_resilience_runtime.Models.{truthy}
use agent_resilience_runtime.Api.{Tokens, administrator, require_admin, require_viewer}

-- A caller that the control plane takes for an administrator may use the administrator's endpoints.
-- Without a token for administrators those endpoints admit everybody, and where there is a token for
-- viewers all the same, a caller without a header is turned away from the viewers' endpoints only.
pub require_admin-roles :
    (t : Tokens) (header : Option String)
    → (require_viewer t header ≡ ok administrator → require_admin t header ≡ ok tt)
      × (truthy t.admin_api_token ≡ false → require_admin t header ≡ ok tt)
      × (truthy t.admin_api_token ≡ false
          → truthy t.viewer_api_token ≡ true
          → require_viewer t none
            ≡ err (http_exception 401 "valid control-plane bearer token required"))
unfolding require_admin require_viewer
require_admin-roles t header = ground arith
