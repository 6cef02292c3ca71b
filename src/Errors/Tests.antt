-- ===== src/Errors/Tests.antt =====
-- An AppError of a request at concrete inputs, and codes that are not registered.
use comfy_shell_v.Prelude.{ℕ, true, false, ◌≡◌, refl, none, arith, subst}
use comfy_shell_v.Prelude.Json.{end, field, str, bool}
use comfy_shell_v.Uow.{app_error}
use comfy_shell_v.Fixture.{quiet_env, start_world, cfg}
use comfy_shell_v.Comfy.Runs.{get_run}
use comfy_shell_v.Comfy.Requests.{Request, handle}
use comfy_shell_v.Errors.{ErrorEnvelope, done, error_envelope}
use comfy_shell_v.Errors.Codes.{is_registered}
use comfy_shell_v.Errors.Service.{PrintsRegistered, code_of}
use comfy_shell_v.Errors.Service.Answer.{handle-error_envelope}

-- The codes of ItemService are not in the registry.
item_codes :
    (is_registered "ITEM_NOT_FOUND" ≡ false)
    × (is_registered "ITEM_NAME_CONFLICT" ≡ false)
    × (is_registered "ITEM_VERSION_CONFLICT" ≡ false)
unfolding is_registered
item_codes = (refl, refl, refl)

failed_code : is_registered (code_of quiet_env.repr (field "ok" (bool true) end)) ≡ true
unfolding is_registered
failed_code = refl

quiet-PrintsRegistered : PrintsRegistered quiet_env
quiet-PrintsRegistered = record {
  printed = λ t args result payload ran read.
      let same : field "ok" (bool true) end ≡ payload = ground (arith, read) in
      subst (λ fs. is_registered (code_of quiet_env.repr fs) ≡ true) same failed_code;
}

run_missing :
    (handle cfg (Request.get_run "r") quiet_env start_world).0
    ≡ app_error "RUN_NOT_FOUND" (field "run_id" (str "r") end)
unfolding handle get_run
run_missing = refl

handle-error_envelope_example :
    (n : ℕ) × (body : ErrorEnvelope) × (error_envelope "RUN_NOT_FOUND" none
        (field "run_id" (str "r") end)
      ≡ done (n, body))
    × (body.code ≡ "RUN_NOT_FOUND")
handle-error_envelope_example =
    handle-error_envelope cfg (Request.get_run "r") quiet_env start_world "RUN_NOT_FOUND"
      (field "run_id" (str "r") end) quiet-PrintsRegistered run_missing
