-- ===== src/Errors/Codes.antt =====
-- Which codes `error_envelope` answers.
use comfy_shell_v.Prelude.{
  ℕ, String, Bool, true, false, ◌≡◌, refl, arith, Option, List, [], ◌∷◌, any, eq_iff, inl, inr,
  Bool-cases,
}
use comfy_shell_v.Prelude.Json.{Fields}
use comfy_shell_v.Errors.{
  ErrorSpec, ErrorEnvelope, done, has_code, spec_in, default_specs, error_registry, status_or,
  envelope_of, error_envelope, register_defaults, get,
}

unfoldable pub is_registered : String → Bool
is_registered code = any (has_code code) default_specs

-- What the module does when it is loaded leaves the registry that the envelopes read.
registry_loaded : register_defaults (record { specs = []; frozen = false }) ≡ done error_registry
unfolding register_defaults
registry_loaded = refl

spec_in-any :
    (code : String) (specs : List ErrorSpec)
    → any (has_code code) specs ≡ true
    → (spec : ErrorSpec) × (spec_in code specs ≡ done spec) × (spec.code ≡ code)
spec_in-any code [] h = absurd (ground arith)
spec_in-any code (s ∷ specs) h = elim (Bool-cases (has_code code s)) [
  | inl here ↦ (s, ground (arith, here), ground (arith, eq_iff s.code code, here))
  | inr other ↦
      let (spec, found, same) = spec_in-any code specs (ground (arith, h, other)) in
      (spec, ground (arith, other, found), same)
]

pub error_envelope-is_registered :
    (code : String) (status : Option ℕ) (details : Fields)
    → is_registered code ≡ true
    → (n : ℕ) × (body : ErrorEnvelope) × (error_envelope code status details ≡ done (n, body))
      × (body.code ≡ code)
unfolding is_registered error_envelope get
error_envelope-is_registered code status details h =
    let (spec, found, same) = spec_in-any code default_specs h in
    (status_or status spec.http_status, envelope_of spec details, ground (arith, found), same)

-- The codes that ComfyService raises by itself
pub service_codes :
    (is_registered "REQUEST_INVALID" ≡ true)
    × (is_registered "HOST_NOT_FOUND" ≡ true)
    × (is_registered "HOST_NAME_CONFLICT" ≡ true)
    × (is_registered "MODEL_ROOT_NOT_FOUND" ≡ true)
    × (is_registered "MODEL_ROOT_CONFLICT" ≡ true)
    × (is_registered "INSTANCE_NOT_FOUND" ≡ true)
    × (is_registered "INSTANCE_SLUG_CONFLICT" ≡ true)
    × (is_registered "INSTANCE_RUNNING" ≡ true)
    × (is_registered "RUN_NOT_FOUND" ≡ true)
    × (is_registered "EXECUTOR_UNSUPPORTED" ≡ true)
    × (is_registered "COMFYCTL_FAILED" ≡ true)
unfolding is_registered
service_codes = (refl, refl, refl, refl, refl, refl, refl, refl, refl, refl, refl)
