-- ===== src/Errors/Service/CommandLine.antt =====
-- `ComfyCtlClient` of app/services/comfy_service.py over `main` of comfyctl/cli.py.
use comfy_shell_v.Prelude.{ℕ, String, true, ◌≡◌, refl, ap, subst, List, [], ◌∷◌, some, inl, inr}
use comfy_shell_v.Prelude.Json.{Json, Fields, object, py_str}
use comfy_shell_v.Uow.{Env, CommandResult}
use comfy_shell_v.Comfy.Client.{or_text}
use comfy_shell_v.Comfyctl.Catalog.{Catalog}
use comfy_shell_v.Comfyctl.Machine.{
  Platform, Machine, Result, ok, failed, value_error, crash, exhausted,
}
use comfy_shell_v.Comfyctl.Main.{Command, main}
use comfy_shell_v.Comfyctl.Contract.Exit.{Report, succeeded, failed_by, Ended, main-Ended}
use comfy_shell_v.Errors.Codes.{is_registered}
use comfy_shell_v.Errors.Service.{PrintsRegistered, code_of}

-- What the executor runs is `main`, and its output is the text of what that has printed, which
-- `json.loads` reads back: where the output reads as an object, that is the one object printed, its
-- keys in order as `emit` prints them.
pub record RunsMain (sorted : List String → List String) (catalog : Catalog) (env : Env)
    : Type 0 where
  pub printed :
      (t : ℕ) (args : List String) (result : CommandResult) (payload : Fields)
      → env.exec t args ≡ some result
      → env.loads result.stdout ≡ some (object payload)
      → (command : Command) × (platform : Platform) × (m : Machine) × (m.printed ≡ [])
        × ((main sorted catalog command platform m).1.printed ≡ payload ∷ [])

report_code :
    (repr : Json → String) (n : ℕ) (payload : Fields)
    → Report n payload
    → is_registered (code_of repr payload) ≡ true
unfolding is_registered
report_code repr n payload (succeeded _ _ no_code) =
    rw (ap (λ v. py_str repr (or_text v "COMFYCTL_FAILED")) no_code) refl
report_code repr n payload (failed_by code _ _ _ has_code registered) =
    rw (ap (λ v. py_str repr (or_text v "COMFYCTL_FAILED")) has_code) registered

head_eq : (p q : Fields) → p ∷ [] ≡ q ∷ [] → q ≡ p
head_eq p q e = cc

registered_at_end :
    (repr : Json → String) (r : Result ℕ) (payload : Fields)
    → Ended r [] (payload ∷ [])
    → is_registered (code_of repr payload) ≡ true
registered_at_end repr (ok n) payload (p, e, report) =
    report_code repr n payload (rw (← head_eq payload p e) report)
registered_at_end repr (failed e) payload h = elim h [ ]
registered_at_end repr (value_error text) payload h = elim h [ ]
registered_at_end repr crash payload (inl e) = cc
registered_at_end repr crash payload (inr (p, e, report)) =
    report_code repr 0 payload (rw (← head_eq payload p e) report)
registered_at_end repr exhausted payload h = elim h [ ]

module _ (sorted : List String → List String) (catalog : Catalog) where
  -- Where what the executor runs is `main` of comfyctl and an output that reads as an object
  -- is the one object that it has printed, with the keys in the order in which they are
  -- printed, the command line prints registered error codes only, as the service's errors ask
  -- for.
  pub RunsMain-PrintsRegistered : (env : Env) → RunsMain sorted catalog env → PrintsRegistered env
  RunsMain-PrintsRegistered env runs = record {
    printed = λ t args result payload ran read.
        let (command, platform, m, empty, shows) = runs.printed t args result payload ran read in
        let (r, m') = main sorted catalog command platform m in
        registered_at_end env.repr r payload (
          subst (λ after. Ended r [] after) shows
            (subst (λ before. Ended r before m'.printed) empty
              (main-Ended sorted catalog command platform m)));
  }
