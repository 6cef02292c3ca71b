-- ===== src/Comfyctl/Contract/Exit.antt =====
-- The exit codes of `main` of comfyctl/cli.py, and the object that it prints.
use comfy_shell_v.Prelude.{
  ℕ, String, true, false, ◌≡◌, ◌≤◌, refl, ap, ◌⊎◌, inl, inr, List, ◌∷◌, arith, some, none,
}
use comfy_shell_v.Prelude.Json.{Fields, str, bool, field}
use comfy_shell_v.Comfyctl.Machine.Printed.{sorted_fields}
use comfy_shell_v.Errors.Codes.{is_registered}
use comfy_shell_v.Comfyctl.Catalog.{Catalog}
use comfy_shell_v.Comfyctl.Machine.{
  Platform, Machine, CommandFailure, Result, ok, failed, value_error, crash, exhausted,
}
use comfy_shell_v.Comfyctl.Tools.{command_failure, exit_usage}
use comfy_shell_v.Comfyctl.Main.{
  Command, host_probe, model_root_check, instance_install, instance_start, instance_stop,
  instance_status, instance_ready, instance_logs, dispatch, failure, failure_fields, handled, main,
}
use comfy_shell_v.Comfyctl.Contract.{value-sorted_fields, Finishes, Finished, is_known, value}
use comfy_shell_v.Comfyctl.Contract.Install.{install-Finishes}
use comfy_shell_v.Comfyctl.Contract.Start.{start-Finishes}
use comfy_shell_v.Comfyctl.Contract.Stop.{stop-Finishes}
use comfy_shell_v.Comfyctl.Contract.Reports.{
  status-Finishes, ready-Finishes, logs-Finishes, probe-Finishes, root_check-Finishes,
}

-- An object that reports a success, or a failure by a registered code
pub data Report (exit_code : ℕ) (payload : Fields) : Type 0 where
  succeeded :
      exit_code ≡ 0
      → value "ok" payload ≡ some (bool true)
      → value "error_code" payload ≡ none
      → Report exit_code payload
  failed_by :
      (code : String)
      → 2 ≤ exit_code
      → exit_code ≤ 5
      → value "ok" payload ≡ some (bool false)
      → value "error_code" payload ≡ some (str code)
      → is_registered code ≡ true
      → Report exit_code payload

-- How a run ends: it returns and has printed one object, or it crashes, at the latest behind the object
-- of a success.
abbrev pub Ended : Result ℕ → List Fields → List Fields → Type 0
Ended (ok n) before after = (payload : Fields) × (after ≡ payload ∷ before) × Report n payload
Ended (failed e) before after = ⊥
Ended (value_error text) before after = ⊥
Ended crash before after =
    (after ≡ before) ⊎ ((payload : Fields) × (after ≡ payload ∷ before) × Report 0 payload)
Ended exhausted before after = ⊥

known_parts :
    (e : CommandFailure)
    → is_known e ≡ true
    → (2 ≤ e.exit_code) × (e.exit_code ≤ 5) × (is_registered e.error_code ≡ true)
known_parts e h = (ground arith, ground arith, ground arith)

failure-Ended :
    (e : CommandFailure) (env : Platform) (m : Machine) (before : List Fields)
    → is_known e ≡ true
    → m.printed ≡ before
    → let (r, m') = failure e env m in Ended r before m'.printed
unfolding failure
failure-Ended e env m before known p =
    let payload =
      field "ok" (bool false) (field "ts" (str (env.utc_now m.tick)) (failure_fields e)) in
    let (low, high, registered) = known_parts e known in
    (
      sorted_fields payload,
      ap (λ l. sorted_fields payload ∷ l) p,
      failed_by e.error_code low high (value-sorted_fields "ok" payload (some (bool false)) refl)
          (value-sorted_fields "error_code" payload (some (str e.error_code)) refl) registered,
    )

success-Report :
    (n : ℕ) (ts : String) (rest : Fields)
    → n ≡ 0
    → value "error_code" rest ≡ none
    → Report n (sorted_fields (field "ok" (bool true) (field "ts" (str ts) rest)))
unfolding sorted_fields
success-Report n ts rest zero_code no_code =
    let payload = field "ok" (bool true) (field "ts" (str ts) rest) in
    succeeded zero_code (value-sorted_fields "ok" payload (some (bool true)) refl)
      (value-sorted_fields "error_code" payload none no_code)

handled-Ended :
    (r : Result ℕ) (env : Platform) (m : Machine) (before : List Fields)
    → Finished r before m.printed
    → let (r', m') = handled r env m in Ended r' before m'.printed
unfolding handled is_registered
handled-Ended (ok n) env m before (zero_code, (ts, rest, p, no_code)) = (
  sorted_fields (field "ok" (bool true) (field "ts" (str ts) rest)),
  p,
  success-Report n ts rest zero_code no_code,
)
handled-Ended (failed e) env m before (known, p) = failure-Ended e env m before known p
handled-Ended (value_error text) env m before p =
    failure-Ended (command_failure exit_usage "REQUEST_INVALID" text "config") env m before refl p
handled-Ended crash env m before (inl p) = inl p
handled-Ended crash env m before (inr (ts, rest, p, no_code)) = inr (
  sorted_fields (field "ok" (bool true) (field "ts" (str ts) rest)),
  p,
  success-Report 0 ts rest refl no_code,
)
handled-Ended exhausted env m before h = h

module _ (sorted : List String → List String) (catalog : Catalog) where
  dispatch-Finishes : (command : Command) → Finishes (dispatch sorted catalog command)
  unfolding dispatch
  dispatch-Finishes (host_probe data_root) = probe-Finishes catalog data_root
  dispatch-Finishes (model_root_check path) = root_check-Finishes path
  dispatch-Finishes (instance_install args) = install-Finishes sorted catalog args
  dispatch-Finishes (instance_start args) = start-Finishes args
  dispatch-Finishes (instance_stop args) = stop-Finishes args
  dispatch-Finishes (instance_status args) = status-Finishes args
  dispatch-Finishes (instance_ready args) = ready-Finishes args
  dispatch-Finishes (instance_logs args) = logs-Finishes args

  -- For any catalog and any answers of the operating system and of other programs, a run of
  -- `main` of comfyctl behind its parser ends in one of these ways: with exit code 0 and one
  -- object printed, whose "ok" is true and which has no error code; with an exit code from 2
  -- to 5 and one object printed, whose "ok" is false and whose error code is in the service's
  -- registry; or with an exception that `main` does not catch, and then nothing is printed or
  -- the object of a success. The waiting loops of start and stop never use up their rounds.
  pub main-Ended :
      (command : Command) (env : Platform) (m : Machine)
      → let (r, m') = main sorted catalog command env m in Ended r m.printed m'.printed
  unfolding main
  main-Ended command env m =
      let (r, m') = dispatch sorted catalog command env m in
      handled-Ended r env m' m.printed ((dispatch-Finishes command).at env m)
