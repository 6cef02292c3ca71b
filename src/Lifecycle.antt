-- ===== src/Lifecycle.antt =====
-- app/core/lifecycle.py: the registries of providers and of health checks. What a provider or a
-- check does when it is called is a field of it; `calls` lists the calls of providers in order.
pub mod Health
pub mod Status
pub mod Providers
pub mod Shutdown
pub mod Progress
pub mod Failing
pub mod Startup
pub mod Tests
use comfy_shell_v.Prelude.{ℕ, ℤ, String, Bool, true, false, Option, List}
use comfy_shell_v.Prelude.Json.{Fields}

-- The RuntimeErrors of the module, and what another's code raises, with the name of its type: an
-- Exception, or a BaseException that is none, such as CancelledError
pub data Error : Type 0 where
  frozen_registry : Error
  duplicate_name : (name : String) → Error
  timeout_not_positive : (name : String) → Error
  no_providers : Error
  not_started : (name : String) → Error
  shutdown_failed : (type_names : List String) → Error
  foreign_error : (type_name : String) → Error
  interruption : (type_name : String) → Error

-- What `except Exception` catches
abbrev pub is_exception : Error → Bool
is_exception (interruption name) = false
is_exception _ = true

-- How a call ends
pub data Attempt {ℓ} (A : Type ℓ) : Type ℓ where
  returned : A → Attempt A
  raised : Error → Attempt A

pub data HealthStatus : Type 0 where
  healthy failed degraded : HealthStatus

pub record HealthCheckResult : Type 0 where
  pub name : String
  pub status : HealthStatus
  pub details : Fields

-- How `asyncio.wait_for(item.check(), ...)` ends
pub data Answer : Type 0 where
  answered : HealthCheckResult → Answer
  timed_out : Answer
  check_raised : (type_name : String) → Answer

-- `timeout_seconds` is a whole number here; only its sign is looked at.
pub record HealthCheck : Type 0 where
  pub name : String
  pub check : Answer
  pub timeout_seconds : ℤ
  pub required : Bool

pub record HealthCheckRegistry : Type 0 where
  pub checks : List HealthCheck
  pub frozen : Bool

pub record LifecycleProvider (R : Type 0) : Type 0 where
  pub name : String
  pub required : Bool
  pub startup : Attempt R
  pub shutdown : R → Attempt (Unit {0})
  pub health_check : R → Attempt (Option HealthCheck)

pub data Call : Type 0 where
  start_failed : (name : String) → Call
  start_returned : (name : String) → Call
  stopped : (name : String) → Call

-- LifecycleProviderRegistry, with the health registry that it registers checks in
pub record LifecycleState (R : Type 0) : Type 0 where
  pub providers : List (LifecycleProvider R)
  pub started : List (LifecycleProvider R × R)
  pub frozen : Bool
  pub health : HealthCheckRegistry
  pub calls : List Call
