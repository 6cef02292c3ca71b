-- ===== src/Lifecycle/Providers.antt =====
-- LifecycleProviderRegistry of app/core/lifecycle.py.
use comfy_shell_v.Prelude.{
  String, true, Option, none, some, List, [], ◌∷◌, ◌++◌, any, reverse, ◌==◌, if◌then◌else◌, ⊤,
}
use comfy_shell_v.Lifecycle.{
  Attempt, returned, raised, Error, frozen_registry, duplicate_name, no_providers, not_started,
  shutdown_failed, foreign_error, interruption, is_exception, HealthCheck, HealthCheckRegistry,
  LifecycleProvider, LifecycleState, start_failed, start_returned, stopped,
}
use comfy_shell_v.Lifecycle.Health

-- `type(error).__name__`
abbrev pub type_name : Error → String
type_name (foreign_error name) = name
type_name (interruption name) = name
type_name _ = "RuntimeError"

-- `except Exception as exc: errors.append(exc)` around one call
abbrev pub kept_errors : List String → Attempt ⊤ → Attempt (List String)
kept_errors errors (returned _) = returned errors
kept_errors errors (raised e) =
    if is_exception e then returned (errors ++ type_name e ∷ []) else raised e

abbrev pub raise_errors : List String → Attempt ⊤
raise_errors [] = returned tt
raise_errors (e ∷ errors) = raised (shutdown_failed (e ∷ errors))

abbrev pub register_check : Option HealthCheck → HealthCheckRegistry → Attempt HealthCheckRegistry
register_check none health = returned health
register_check (some check) health = Health.register check health

module _ {R : Type 0} where
  unfoldable pub register : LifecycleProvider R → LifecycleState R → Attempt (LifecycleState R)
  register provider s =
      if s.frozen
      then raised frozen_registry
      else (if any (λ other. other.name == provider.name) s.providers
          then raised (duplicate_name provider.name)
          else returned (record s { providers = s.providers ++ provider ∷ [] }))

  -- The first started provider of the name
  abbrev resource_in : String → List (LifecycleProvider R × R) → Attempt R
  resource_in name [] = raised (not_started name)
  resource_in name ((p, r) ∷ rest) =
      let later = resource_in name rest in if p.name == name then returned r else later

  unfoldable pub get_resource : String → LifecycleState R → Attempt R
  get_resource name s = resource_in name s.started

  abbrev pub freeze : LifecycleState R → LifecycleState R
  freeze s = record s { frozen = true }

  unfoldable pub validate : LifecycleState R → Attempt ⊤
  validate s = elim s.providers [ [] ↦ raised no_providers | _ ∷ _ ↦ returned tt ]

  -- `while self._started`, over the started providers from the last one: each is taken off the list
  -- and shut down, and an Exception of it is kept.
  abbrev pub stop_loop :
      List (LifecycleProvider R × R)
      → List String
      → LifecycleState R
      → Attempt (List String) × LifecycleState R
  stop_loop [] errors s = (returned errors, s)
  stop_loop ((p, r) ∷ rest) errors s =
      let s' : LifecycleState R = record s {
        started = reverse rest;
        calls = s.calls ++ stopped p.name ∷ [];
      } in
      elim (kept_errors errors (p.shutdown r)) [
        | raised e ↦ (raised e, s')
        | returned errors' ↦ stop_loop rest errors' s'
      ]

  abbrev pub finish_shutdown :
      Attempt (List String) × LifecycleState R → Attempt ⊤ × LifecycleState R
  finish_shutdown (returned errors, s) = (raise_errors errors, s)
  finish_shutdown (raised e, s) = (raised e, s)

  unfoldable pub shutdown : LifecycleState R → Attempt ⊤ × LifecycleState R
  shutdown s = finish_shutdown (stop_loop (reverse s.started) [] s)

  abbrev pub start_one : LifecycleProvider R → LifecycleState R → Attempt ⊤ × LifecycleState R
  start_one p s = elim p.startup [
    | raised e ↦ (raised e, record s { calls = s.calls ++ start_failed p.name ∷ [] })
    | returned r ↦
        let s' : LifecycleState R = record s {
          started = s.started ++ (p, r) ∷ [];
          calls = s.calls ++ start_returned p.name ∷ [];
        } in
        elim (p.health_check r) [
          | raised e ↦ (raised e, s')
          | returned check ↦ elim (register_check check s'.health) [
            | raised e ↦ (raised e, s')
            | returned health ↦ (returned tt, record s' { health = health })
          ]
        ]
  ]

  -- The `for` loop of `startup`, which an exception ends
  abbrev pub start_loop :
      List (LifecycleProvider R) → LifecycleState R → Attempt ⊤ × LifecycleState R
  start_loop [] s = (returned tt, s)
  start_loop (p ∷ ps) s =
      let (outcome, s') = start_one p s in
      elim outcome [ raised e ↦ (raised e, s') | returned _ ↦ start_loop ps s' ]

  -- The exception of a failed start is raised again, where the shutdown ends with an Exception at most.
  abbrev pub raise_again : Error → Attempt ⊤ × LifecycleState R → Attempt ⊤ × LifecycleState R
  raise_again e (returned _, s) = (raised e, s)
  raise_again e (raised e', s) = (raised (if is_exception e' then e else e'), s)

  abbrev pub finish_startup : Attempt ⊤ × LifecycleState R → Attempt ⊤ × LifecycleState R
  finish_startup (returned _, s) = (returned tt, freeze s)
  finish_startup (raised e, s) =
      let cleaned = raise_again e (shutdown s) in if is_exception e then cleaned else (raised e, s)

  unfoldable pub startup : LifecycleState R → Attempt ⊤ × LifecycleState R
  unfolding validate shutdown
  startup s = elim (validate s) [
    | raised e ↦ (raised e, s)
    | returned _ ↦ finish_startup (start_loop s.providers s)
  ]
