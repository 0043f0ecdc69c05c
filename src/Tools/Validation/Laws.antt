-- ===== src/Tools/Validation/Laws.antt =====
-- The argument models of agent_resilience/tools.py on their own output, and what the policy reads of
-- it.
use agent_resilience_runtime.Prelude.{
  String, true, Option, none, some, ◌≡◌, ◌⊎◌, inl, inr, refl, ◌==◌, string_eq, arith, list_beq,
  nat_eq, some_inj,
}
use text.Mathlib.TextEquality.{eq_iff}
use agent_resilience_runtime.Models.{ToolName, dependency_health, Arguments, ArgValue, argument}
use agent_resilience_runtime.Policy.{is_production, lower, codes}
use mathlib.Core.Path.{subst}
use agent_resilience_runtime.Tools.Validation.{
  validate, validate_service, validate_dependency, is_service_name, is_environment, service_field,
  environment_field, dependency_field, service_dump, dependency_dump, ◌>>=◌,
}

service_field-some :
    (v : Option ArgValue) {s : String} → service_field v ≡ some s → is_service_name s ≡ true
service_field-some none h = cc
service_field-some (some ArgValue.null) h = cc
service_field-some (some (ArgValue.text t)) h = ground arith

is_environment-production : is_environment "production" ≡ true
unfolding is_environment
is_environment-production = refl

environment_field-some :
    (v : Option ArgValue) {s : String} → environment_field v ≡ some s → is_environment s ≡ true
environment_field-some none h =
    subst (λ e. is_environment e ≡ true) (some_inj h) is_environment-production
environment_field-some (some ArgValue.null) h = cc
environment_field-some (some (ArgValue.text t)) h = ground arith

dependency_field-some :
    (v : Option ArgValue) {d : ArgValue}
    → dependency_field v ≡ some d
    → dependency_field (some d) ≡ some d
dependency_field-some none h = ground arith
dependency_field-some (some ArgValue.null) h = ground arith
dependency_field-some (some (ArgValue.text t)) h = ground arith

>>=-eq-some :
    {A B : Type 0} (m : Option A) (f : A → Option B) {b : B}
    → (m >>= f) ≡ some b
    → (a : A) × (m ≡ some a) × (f a ≡ some b)
>>=-eq-some none f h = cc
>>=-eq-some (some a) f h = (a, refl, h)

-- What a validated dict holds: a service name, one of the environments, and a dependency.
pub record IsValidated (b : Arguments) : Type 0 where
  pub service : String
  pub environment : String
  pub has_service : argument "service" b ≡ some (ArgValue.text service)
  pub has_environment : argument "environment" b ≡ some (ArgValue.text environment)
  pub service_ok : is_service_name service ≡ true
  pub environment_ok : is_environment environment ≡ true

-- The dict that each model dumps is validated, and is its own dump.
abbrev Stable : (Arguments → Option Arguments) → Arguments → Type 0
Stable model b = IsValidated b × (model b ≡ some b)

service_dump-Stable :
    (s e : String)
    → is_service_name s ≡ true
    → is_environment e ≡ true
    → Stable validate_service (service_dump s e)
unfolding validate_service
service_dump-Stable s e hs he = (
  record {
    service = s;
    environment = e;
    has_service = refl;
    has_environment = refl;
    service_ok = hs;
    environment_ok = he;
  },
  rw (hs, he),
)

dependency_dump-Stable :
    (s e : String) (d : ArgValue)
    → is_service_name s ≡ true
    → is_environment e ≡ true
    → dependency_field (some d) ≡ some d
    → Stable validate_dependency (dependency_dump s e d)
unfolding validate_dependency
dependency_dump-Stable s e d hs he hd = (
  record {
    service = s;
    environment = e;
    has_service = refl;
    has_environment = refl;
    service_ok = hs;
    environment_ok = he;
  },
  rw (hs, he, hd),
)

validate_service-Stable :
    (a : Arguments) {b : Arguments} → validate_service a ≡ some b → Stable validate_service b
unfolding validate_service
validate_service-Stable a h =
    let (s, hs, h1) = >>=-eq-some (service_field (argument "service" a)) _ h in
    let (e, he, h2) = >>=-eq-some (environment_field (argument "environment" a)) _ h1 in
    subst (Stable validate_service) (some_inj h2)
      (service_dump-Stable s e (service_field-some _ hs) (environment_field-some _ he))

validate_dependency-Stable :
    (a : Arguments) {b : Arguments} → validate_dependency a ≡ some b → Stable validate_dependency b
unfolding validate_dependency
validate_dependency-Stable a h =
    let (s, hs, h1) = >>=-eq-some (service_field (argument "service" a)) _ h in
    let (e, he, h2) = >>=-eq-some (environment_field (argument "environment" a)) _ h1 in
    let (d, hd, h3) = >>=-eq-some (dependency_field (argument "dependency" a)) _ h2 in
    subst (Stable validate_dependency) (some_inj h3) (
      dependency_dump-Stable s e d (service_field-some _ hs) (environment_field-some _ he)
        (dependency_field-some _ hd))

validate-Stable :
    (t : ToolName) (a : Arguments) {b : Arguments} → validate t a ≡ some b → Stable (validate t) b
unfolding validate
validate-Stable dependency_health a h = validate_dependency-Stable a h
validate-Stable _ a h = validate_service-Stable a h

-- Validated arguments hold a well-formed service name and one of the three environments, and
-- validating them again changes nothing.
pub validate_idem :
    (t : ToolName) (a : Arguments) {b : Arguments}
    → validate t a ≡ some b
    → IsValidated b × (validate t b ≡ some b)
validate_idem t a h = validate-Stable t a h

environment_cases :
    (e : String) → is_environment e ≡ true → (e ≡ "production") ⊎ ((e ≡ "staging") ⊎ (e ≡ "test"))
unfolding is_environment
environment_cases e h = ground (arith, eq_iff e "production", eq_iff e "staging", eq_iff e "test")

abbrev InLowerCase : String → Type 0
InLowerCase e = list_beq (lower (codes e)) (codes "production") ≡ (e == "production")

InLowerCase-of : (e : String) → is_environment e ≡ true → InLowerCase e
InLowerCase-of e h = elim (environment_cases e h) [
  | inl p ↦ rw p refl
  | inr (inl p) ↦ rw p refl
  | inr (inr p) ↦ rw p refl
]

-- The policy's test of the environment, `.lower()` included, is exact on validated arguments.
pub is_production-validated :
    (b : Arguments) (v : IsValidated b) → is_production b ≡ (v.environment == "production")
unfolding is_production
is_production-validated b v = rw v.has_environment (InLowerCase-of v.environment v.environment_ok)
