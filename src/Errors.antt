-- ===== src/Errors.antt =====
-- app/core/error_registry.py, and `error_envelope` of app/schemas/envelope.py.
pub mod Codes
pub mod Service
pub mod Tests
use Prim.Native.String
use comfy_shell_v.Prelude.{
  ℕ, String, Bool, true, false, Option, none, some, List, [], ◌∷◌, ◌++◌, any, ◌==◌, eqb,
  if◌then◌else◌, ⊤,
}
use comfy_shell_v.Prelude.Json.{Fields}

pub record ErrorSpec : Type 0 where
  pub code : String
  pub http_status : ℕ
  pub message : String
  pub retryable : Bool
  pub visibility : List String

pub record ErrorRegistry : Type 0 where
  pub specs : List ErrorSpec
  pub frozen : Bool

-- A RuntimeError has its text.
pub data Fallible (A : Type 0) : Type 0 where
  done : A → Fallible A
  runtime_error : (text : String) → Fallible A

abbrev and_then : {A : Type 0} {B : Type 0} → Fallible A → (A → Fallible B) → Fallible B
and_then (done a) f = f a
and_then (runtime_error text) f = runtime_error text

abbrev pub has_code : String → ErrorSpec → Bool
has_code code spec = spec.code == code

unfoldable pub register : ErrorSpec → ErrorRegistry → Fallible ErrorRegistry
register spec registry =
    if registry.frozen
    then runtime_error "error registry is frozen"
    else (if any (has_code spec.code) registry.specs
        then runtime_error (String.◌++◌ "duplicate error code: " spec.code)
        else done (record registry { specs = registry.specs ++ spec ∷ [] }))

abbrev pub spec_in : String → List ErrorSpec → Fallible ErrorSpec
spec_in code [] = runtime_error (String.◌++◌ "unknown error code: " code)
spec_in code (spec ∷ specs) =
    let later = spec_in code specs in if has_code code spec then done spec else later

unfoldable pub get : String → ErrorRegistry → Fallible ErrorSpec
get code registry = spec_in code registry.specs

unfoldable pub validate : ErrorRegistry → Fallible ⊤
validate registry =
    if any (has_code "INTERNAL_ERROR") registry.specs
    then done tt
    else runtime_error "INTERNAL_ERROR must be registered"

unfoldable pub freeze : ErrorRegistry → ErrorRegistry
freeze registry = record registry { frozen = true }

abbrev everyone : List String
everyone = "public" ∷ "internal" ∷ []

abbrev public_only : List String
public_only = "public" ∷ []

-- A row of `_register_defaults`
abbrev row : String → ℕ → String → Bool → List String → ErrorSpec
row code http_status message retryable visibility = record {
  code = code;
  http_status = http_status;
  message = message;
  retryable = retryable;
  visibility = visibility;
}

abbrev pub default_specs : List ErrorSpec
default_specs =
    row "REQUEST_INVALID" 422 "Request is invalid." false everyone
    ∷ row "UNAUTHORIZED" 401 "Authentication is required." false everyone
    ∷ row "FORBIDDEN" 403 "Permission denied." false everyone
    ∷ row "RESOURCE_NOT_FOUND" 404 "Resource not found." false everyone
    ∷ row "RESOURCE_CONFLICT" 409 "Resource conflict." false everyone
    ∷ row "DEPENDENCY_UNAVAILABLE" 503 "Dependency is unavailable." true everyone
    ∷ row "INTERNAL_ERROR" 500 "Internal server error." true everyone
    ∷ row "HOST_NOT_FOUND" 404 "Host not found." false public_only
    ∷ row "HOST_NAME_CONFLICT" 409 "Host name already exists." false public_only
    ∷ row "MODEL_ROOT_NOT_FOUND" 404 "Model root not found." false public_only
    ∷ row "MODEL_ROOT_CONFLICT" 409 "Model root already exists." false public_only
    ∷ row "INSTANCE_NOT_FOUND" 404 "Instance not found." false public_only
    ∷ row "INSTANCE_SLUG_CONFLICT" 409 "Instance slug already exists." false public_only
    ∷ row "INSTANCE_RUNNING" 409 "Instance is running." false public_only
    ∷ row "RUN_NOT_FOUND" 404 "Command run not found." false public_only
    ∷ row "EXECUTOR_UNSUPPORTED" 422 "Executor mode is not supported." false public_only
    ∷ row "COMFYCTL_FAILED" 500 "comfyctl command failed." false public_only
    ∷ row "PORT_IN_USE" 409 "Port is already in use." false public_only
    ∷ row "INSTANCE_LOCKED" 409 "Instance is locked." false public_only
    ∷ row "DEPENDENCY_MISSING" 503 "Required dependency is missing." false public_only
    ∷ row "GIT_FAILED" 502 "Git command failed." true public_only
    ∷ row "UV_FAILED" 502 "uv command failed." true public_only
    ∷ row "PYTHON_DEPENDENCY_FAILED" 502 "Python dependency installation failed." true public_only
    ∷ row "INSTANCE_NOT_INSTALLED" 409 "Instance is not installed." false public_only
    ∷ row "VENV_MISSING" 409 "Instance virtual environment is missing." false public_only
    ∷ row "PROCESS_START_FAILED" 502 "Process failed to start." true public_only
    ∷ row "PROCESS_STOP_TIMEOUT" 504 "Process stop timed out." true public_only
    ∷ row "PID_INVALID" 500 "PID file is invalid." false public_only
    ∷ []

-- The loop of `_register_defaults`
abbrev register_all : List ErrorSpec → ErrorRegistry → Fallible ErrorRegistry
register_all [] registry = done registry
register_all (spec ∷ specs) registry = and_then (register spec registry) (register_all specs)

unfoldable pub register_defaults : ErrorRegistry → Fallible ErrorRegistry
unfolding register validate freeze
register_defaults registry =
    and_then (register_all default_specs registry)
      (λ filled. and_then (validate filled) (λ _. done (freeze filled)))

-- `error_registry`, as the module leaves it
abbrev pub error_registry : ErrorRegistry
error_registry = record { specs = default_specs; frozen = true }

-- ErrorEnvelope, without the ids and the time of the request
pub record ErrorEnvelope : Type 0 where
  pub code : String
  pub message : String
  pub retryable : Bool
  pub details : Fields

-- `http_status or spec.http_status`
abbrev pub status_or : Option ℕ → ℕ → ℕ
status_or none default = default
status_or (some status) default = if eqb status 0 then default else status

abbrev pub envelope_of : ErrorSpec → Fields → ErrorEnvelope
envelope_of spec details = record {
  code = spec.code;
  message = spec.message;
  retryable = spec.retryable;
  details = details;
}

unfoldable pub error_envelope : String → Option ℕ → Fields → Fallible (ℕ × ErrorEnvelope)
unfolding get
error_envelope code http_status details =
    and_then (get code error_registry)
      (λ spec. done (status_or http_status spec.http_status, envelope_of spec details))
