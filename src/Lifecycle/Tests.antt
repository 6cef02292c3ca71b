-- ===== src/Lifecycle/Tests.antt =====
-- A registry of two providers, the second of which does not start, and the theorems there.
use comfy_shell_v.Prelude.{ℕ, pos, true, false, ◌≡◌, refl, ◌↔◌, any, All, none, [], ◌∷◌, ◌⊎◌}
use comfy_shell_v.Lifecycle.{
  returned, raised, foreign_error, interruption, LifecycleProvider, LifecycleState,
  HealthCheckRegistry, timed_out, healthy, failed, degraded, start_returned, start_failed, stopped,
  shutdown_failed,
}
use comfy_shell_v.Lifecycle.Health.{run_health_checks}
use comfy_shell_v.Lifecycle.Status.{IsHealthy, is_fatal, run_health_checks-status}
use comfy_shell_v.Lifecycle.Providers.{startup, shutdown}
use comfy_shell_v.Lifecycle.Startup.{AllStarted, RolledBack, startup-AllStarted, startup-RolledBack}

-- A provider that starts and does not stop without an exception
abbrev database : LifecycleProvider ℕ
database = record {
  name = "database";
  required = true;
  startup = returned 7;
  shutdown = λ r. raised (foreign_error "OSError");
  health_check = λ r. returned none;
}

abbrev cache : LifecycleProvider ℕ
cache = record database { name = "cache"; startup = raised (foreign_error "ConnectionError") }

abbrev no_checks : HealthCheckRegistry
no_checks = record { checks = []; frozen = false }

abbrev one_provider : LifecycleState ℕ
one_provider = record {
  providers = database ∷ [];
  started = [];
  frozen = false;
  health = no_checks;
  calls = [];
}

abbrev two_providers : LifecycleState ℕ
two_providers = record one_provider { providers = database ∷ cache ∷ [] }

run_two : (startup two_providers).0 ≡ raised (foreign_error "ConnectionError")
unfolding startup
run_two = refl

run_two_calls :
    (startup two_providers).1.calls
    ≡ start_returned "database" ∷ start_failed "cache" ∷ stopped "database" ∷ []
unfolding startup
run_two_calls = refl

run_one : (startup one_provider).0 ≡ returned tt
unfolding startup
run_one = refl

run_stop : (shutdown (startup one_provider).1).0 ≡ raised (shutdown_failed ("OSError" ∷ []))
unfolding startup
run_stop = refl

startup-AllStarted_example : AllStarted one_provider (startup one_provider).1
startup-AllStarted_example = startup-AllStarted one_provider tt run_one

startup-RolledBack_example :
    ((two_providers.providers ≡ []) × ((startup two_providers).1 ≡ two_providers))
    ⊎ RolledBack two_providers (startup two_providers).1 (foreign_error "ConnectionError")
startup-RolledBack_example =
    startup-RolledBack two_providers (foreign_error "ConnectionError") refl run_two refl

abbrev running_state : LifecycleState ℕ
running_state = record one_provider { started = (database, 7) ∷ [] }

-- A cancelled startup leaves what it has started.
cancelled_run :
    let (outcome, s) = startup (record one_provider {
      providers = database ∷ record cache { startup = raised (interruption "CancelledError") } ∷ [];
    }) in
    (outcome ≡ raised (interruption "CancelledError")) × (s.started ≡ (database, 7) ∷ [])
unfolding startup
cancelled_run = (refl, refl)

abbrev checks : HealthCheckRegistry
checks = record {
  checks =
      record { name = "cache"; check = timed_out; timeout_seconds = pos 1; required = false } ∷ [];
  frozen = true;
}

run_checks : (run_health_checks checks).status ≡ degraded
unfolding run_health_checks
run_checks = refl

run_health_checks-status_example :
    let report = run_health_checks checks in
    ((report.status ≡ healthy) ↔ All IsHealthy report.checks)
    × ((report.status ≡ failed) ↔ (any is_fatal report.checks ≡ true))
run_health_checks-status_example = run_health_checks-status checks
