-- ===== src/Policy.antt =====
-- agent_resilience/policy.py: the permission policy, independent of the model's instructions.
pub mod Laws
use Prim.Native.Char.{code}
use agent_resilience_runtime.Prelude.{
  ℕ, ◌+◌, String, Bool, true, false, Option, none, some, List, [], ◌∷◌, nat_eq, ◌&&◌, leb, list_beq,
  if◌then◌else◌,
}
use agent_resilience_runtime.Models.{
  ToolName, RiskLevel, low, medium, high, blocked, delete_database, restart_service, Arguments,
  ArgValue, argument,
}

pub record PolicyDecision : Type 0 where
  pub risk : RiskLevel
  pub allowed : Bool
  pub approval_required : Bool
  pub reason : String

-- `str(value)` of an argument.
abbrev pub arg_text : ArgValue → String
arg_text ArgValue.null = "None"
arg_text (ArgValue.text s) = s

abbrev pub codes : String → List ℕ
codes String.[] = []
codes (String.◌∷◌ c s) = code c ∷ codes s

-- `.lower()`. No letter outside ASCII has a lower case that a comparison with "production" passes.
abbrev pub lower_code : ℕ → ℕ
lower_code c = if leb b'A' c && leb c b'Z' then c + 32 else c

abbrev pub lower : List ℕ → List ℕ
lower [] = []
lower (c ∷ s) = lower_code c ∷ lower s

-- `str(arguments.get("environment", "production"))`
abbrev pub environment_of : Option ArgValue → String
environment_of none = "production"
environment_of (some v) = arg_text v

unfoldable pub is_production : Arguments → Bool
is_production a =
    list_beq (lower (codes (environment_of (argument "environment" a)))) (codes "production")

abbrev pub decision : RiskLevel → Bool → Bool → String → PolicyDecision
decision r a q why = record { risk = r; allowed = a; approval_required = q; reason = why }

unfoldable pub evaluate : ToolName → Arguments → PolicyDecision
evaluate delete_database a = decision blocked false false "database deletion is prohibited"
evaluate restart_service a =
    if is_production a
    then decision high true true "production restart requires human approval"
    else decision medium true false "non-production restart is permitted"
evaluate _ a = decision low true false "read-only or verification action"
