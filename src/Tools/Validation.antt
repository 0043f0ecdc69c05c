-- ===== src/Tools/Validation.antt =====
-- agent_resilience/tools.py: `ServiceArguments`, `DependencyArguments` and `ARGUMENT_MODELS`. Keys that
-- a model does not name are ignored, and every field is read by name.
pub mod Laws
use agent_resilience_runtime.Prelude.{
  ℕ, String, Bool, true, Option, none, some, List, [], ◌∷◌, ◌==◌, string_eq, nat_eq, ◌&&◌, ◌||◌,
  leb, length, if◌then◌else◌,
}
use agent_resilience_runtime.Models.{ToolName, dependency_health, Arguments, ArgValue, argument}
use agent_resilience_runtime.Policy.{codes}

-- `[a-zA-Z0-9_-]`
abbrev pub is_word_code : ℕ → Bool
is_word_code c =
    (leb b'a' c && leb c b'z')
    || (leb b'A' c && leb c b'Z')
    || (leb b'0' c && leb c b'9')
    || c == b'_'
    || c == b'-'

abbrev pub all_word_codes : List ℕ → Bool
all_word_codes [] = true
all_word_codes (c ∷ s) = is_word_code c && all_word_codes s

-- `min_length=1, max_length=100, pattern=r"^[a-zA-Z0-9_-]+$"`
unfoldable pub is_service_name : String → Bool
is_service_name s =
    leb 1 (length (codes s)) && leb (length (codes s)) 100 && all_word_codes (codes s)

-- `pattern=r"^(production|staging|test)$"`
unfoldable pub is_environment : String → Bool
is_environment s = s == "production" || s == "staging" || s == "test"

-- `max_length=100`
unfoldable pub is_dependency : String → Bool
is_dependency s = leb (length (codes s)) 100

abbrev pub service_field : Option ArgValue → Option String
service_field (some (ArgValue.text s)) = if is_service_name s then some s else none
service_field _ = none

abbrev pub environment_field : Option ArgValue → Option String
environment_field none = some "production"
environment_field (some (ArgValue.text s)) = if is_environment s then some s else none
environment_field (some ArgValue.null) = none

abbrev pub dependency_field : Option ArgValue → Option ArgValue
dependency_field none = some ArgValue.null
dependency_field (some ArgValue.null) = some ArgValue.null
dependency_field (some (ArgValue.text s)) = if is_dependency s then some (ArgValue.text s) else none

abbrev pub service_dump : String → String → Arguments
service_dump s e = ("service", ArgValue.text s) ∷ ("environment", ArgValue.text e) ∷ []

abbrev pub dependency_dump : String → String → ArgValue → Arguments
dependency_dump s e d =
    ("service", ArgValue.text s) ∷ ("environment", ArgValue.text e) ∷ ("dependency", d) ∷ []

infixl 5 ◌>>=◌
abbrev ◌>>=◌ : {A B : Type 0} → Option A → (A → Option B) → Option B
none >>= f = none
some a >>= f = f a

-- `ServiceArguments.model_validate(arguments).model_dump()`, `none` for a `ValidationError`
unfoldable pub validate_service : Arguments → Option Arguments
validate_service a = do
  s ← service_field (argument "service" a)
  e ← environment_field (argument "environment" a)
  some (service_dump s e)

unfoldable pub validate_dependency : Arguments → Option Arguments
validate_dependency a = do
  s ← service_field (argument "service" a)
  e ← environment_field (argument "environment" a)
  d ← dependency_field (argument "dependency" a)
  some (dependency_dump s e d)

-- `ARGUMENT_MODELS[tool]`
unfoldable pub validate : ToolName → Arguments → Option Arguments
unfolding validate_service validate_dependency
validate dependency_health a = validate_dependency a
validate _ a = validate_service a
