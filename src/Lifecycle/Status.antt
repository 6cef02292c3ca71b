-- ===== src/Lifecycle/Status.antt =====
-- What the status of `run_health_checks` of app/core/lifecycle.py says of the checks.
use comfy_shell_v.Prelude.{
  Bool, true, false, not, ◌≡◌, refl, arith, ◌↔◌, ◌&&◌, ◌||◌, List, [], ◌∷◌, any, map, All,
}
use comfy_shell_v.Lifecycle.{
  HealthCheck, HealthCheckRegistry, HealthStatus, healthy, failed, degraded,
}
use comfy_shell_v.Lifecycle.Health.{
  run_health_checks, HealthEntry, result_of, entry_of, is_failed, is_degraded, required_failed,
  any_degraded,
}

abbrev pub IsHealthy : HealthEntry → Type 0
IsHealthy entry = entry.status ≡ healthy

-- The entry is that of a failed check that is required.
abbrev pub is_fatal : HealthEntry → Bool
is_fatal entry = entry.required && is_failed entry.status

healthy_of :
    (required : Bool) (status : HealthStatus)
    → (required && is_failed status) ≡ false
    → (not required && is_failed status || is_degraded status) ≡ false
    → status ≡ healthy
healthy_of required healthy h k = refl
healthy_of true failed h k = absurd (ground arith)
healthy_of false failed h k = absurd (ground arith)
healthy_of true degraded h k = absurd (ground arith)
healthy_of false degraded h k = absurd (ground arith)

entries-IsHealthy :
    (checks : List HealthCheck)
    → required_failed checks ≡ false
    → any_degraded checks ≡ false
    → All IsHealthy (map entry_of checks)
entries-IsHealthy [] h k = tt
entries-IsHealthy (c ∷ checks) h k = (
  healthy_of c.required (result_of c).status (ground (arith, h)) (ground (arith, k)),
  entries-IsHealthy checks (ground (arith, h)) (ground (arith, k)),
)

IsHealthy-required_failed :
    (checks : List HealthCheck)
    → All IsHealthy (map entry_of checks)
    → (required_failed checks ≡ false) × (any_degraded checks ≡ false)
IsHealthy-required_failed [] h = (refl, refl)
IsHealthy-required_failed (c ∷ checks) (h, hs) =
    let rest = IsHealthy-required_failed checks hs in
    (ground (arith, h, rest), ground (arith, h, rest))

fatal-required_failed :
    (checks : List HealthCheck) → any is_fatal (map entry_of checks) ≡ required_failed checks
fatal-required_failed [] = refl
fatal-required_failed (c ∷ checks) = ground (arith, fatal-required_failed checks)

-- The report is ok just when every check that it lists is ok, and failed just when a required check
-- that it lists has failed.
pub run_health_checks-status :
    (registry : HealthCheckRegistry)
    → let report = run_health_checks registry in
      ((report.status ≡ healthy) ↔ All IsHealthy report.checks)
      × ((report.status ≡ failed) ↔ (any is_fatal report.checks ≡ true))
unfolding run_health_checks
run_health_checks-status registry =
    let cs = registry.checks in
    let fatal = fatal-required_failed cs in
    (
      (
        λ h. entries-IsHealthy cs (ground (arith, h)) (ground (arith, h)),
        λ all. ground (arith, IsHealthy-required_failed cs all),
      ),
      (λ h. ground (arith, h, fatal), λ bad. ground (arith, bad, fatal)),
    )
