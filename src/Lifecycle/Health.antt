-- ===== src/Lifecycle/Health.antt =====
-- HealthCheckRegistry and `run_health_checks` of app/core/lifecycle.py.
use comfy_shell_v.Prelude.{
  ℤ, pos, negsuc, zero, suc, String, Bool, true, false, not, ◌&&◌, ◌||◌, List, [], ◌∷◌, ◌++◌, map,
  any, ◌==◌, if◌then◌else◌, ⊤,
}
use comfy_shell_v.Prelude.Json.{Fields, end, field, str}
use comfy_shell_v.Lifecycle.{
  Attempt, returned, raised, frozen_registry, duplicate_name, timeout_not_positive, HealthStatus,
  healthy, failed, degraded, HealthCheckResult, answered, timed_out, check_raised, HealthCheck,
  HealthCheckRegistry,
}

unfoldable pub register : HealthCheck → HealthCheckRegistry → Attempt HealthCheckRegistry
register item registry =
    if registry.frozen
    then raised frozen_registry
    else (if any (λ other. other.name == item.name) registry.checks
        then raised (duplicate_name item.name)
        else returned (record registry { checks = registry.checks ++ item ∷ [] }))

unfoldable pub freeze : HealthCheckRegistry → HealthCheckRegistry
freeze registry = record registry { frozen = true }

-- `timeout_seconds <= 0`
abbrev not_positive : ℤ → Bool
not_positive (pos zero) = true
not_positive (pos (suc n)) = false
not_positive (negsuc n) = true

abbrev first_bad : List HealthCheck → Attempt ⊤
first_bad [] = returned tt
first_bad (item ∷ rest) =
    let others = first_bad rest in
    if not_positive item.timeout_seconds then raised (timeout_not_positive item.name) else others

unfoldable pub validate : HealthCheckRegistry → Attempt ⊤
validate registry = first_bad registry.checks

-- The `try` of the loop of `run_health_checks`
abbrev pub result_of : HealthCheck → HealthCheckResult
result_of item = elim item.check [
  | answered result ↦ result
  | timed_out ↦ record {
    name = item.name;
    status = failed;
    details = field "reason" (str "timeout") end;
  }
  | check_raised type_name ↦ record {
    name = item.name;
    status = failed;
    details = field "reason" (str type_name) end;
  }
]

abbrev pub is_failed : HealthStatus → Bool
is_failed failed = true
is_failed _ = false

abbrev pub is_degraded : HealthStatus → Bool
is_degraded degraded = true
is_degraded _ = false

-- An entry of the report
pub record HealthEntry : Type 0 where
  pub name : String
  pub status : HealthStatus
  pub required : Bool
  pub details : Fields

pub record HealthReport : Type 0 where
  pub status : HealthStatus
  pub checks : List HealthEntry

abbrev pub entry_of : HealthCheck → HealthEntry
entry_of item =
    let result = result_of item in
    record {
      name = result.name;
      status = result.status;
      required = item.required;
      details = result.details;
    }

abbrev pub required_failed : List HealthCheck → Bool
required_failed = any (λ item. item.required && is_failed (result_of item).status)

abbrev pub any_degraded : List HealthCheck → Bool
any_degraded = any (λ item.
    not item.required && is_failed (result_of item).status || is_degraded (result_of item).status)

unfoldable pub run_health_checks : HealthCheckRegistry → HealthReport
run_health_checks registry = record {
  status =
      if required_failed registry.checks
      then failed
      else (if any_degraded registry.checks then degraded else healthy);
  checks = map entry_of registry.checks;
}
