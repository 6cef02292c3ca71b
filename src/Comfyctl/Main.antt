-- ===== src/Comfyctl/Main.antt =====
-- `failure` and `main` of comfyctl/cli.py, behind the parser of the arguments.
use comfy_shell_v.Prelude.{ℕ, String, Option, none, some, List, false}
use comfy_shell_v.Prelude.Json.{Json, Fields, null, str, bool, field, end}
use comfy_shell_v.Comfyctl.Catalog.{Catalog}
use comfy_shell_v.Comfyctl.Machine.{
  CommandFailure, Result, failed, value_error, Action, pure, ask, emit, ◌>>=◌, ◌>>◌,
}
use comfy_shell_v.Comfyctl.Tools.{exit_usage, command_failure}
use comfy_shell_v.Comfyctl.Install.Prepare.{InstallArgs}
use comfy_shell_v.Comfyctl.Install.{command_instance_install}
use comfy_shell_v.Comfyctl.Start.{StartArgs, command_instance_start}
use comfy_shell_v.Comfyctl.Stop.{StopArgs, command_instance_stop}
use comfy_shell_v.Comfyctl.Status.{
  PortArgs, LogsArgs, command_instance_status, command_instance_ready, command_instance_logs,
}
use comfy_shell_v.Comfyctl.Probe.{command_host_probe, command_model_root_check}

abbrev or_null : Option String → Json
or_null none = null
or_null (some s) = str s

abbrev pub failure_fields : CommandFailure → Fields
failure_fields e = field "error_code" (str e.error_code) (
    field "message" (str e.message) (
      field "layer" (str e.layer)
        (field "log_path" (or_null e.log_path) (field "stderr_tail" (or_null e.stderr_tail) end))))

unfoldable pub failure : CommandFailure → Action ℕ
unfolding emit
failure e = do
  ts ← ask (λ env t. env.utc_now t)
  emit (field "ok" (bool false) (field "ts" (str ts) (failure_fields e)))
  pure e.exit_code

-- The `except` clauses of `main`
unfoldable pub handled : Result ℕ → Action ℕ
unfolding failure
handled (failed e) env m = failure e env m
handled (value_error text) env m =
    failure (command_failure exit_usage "REQUEST_INVALID" text "config") env m
handled r env m = (r, m)

-- What the parser returns, with the handler that it has set
pub data Command : Type 0 where
  host_probe : (data_root : String) → Command
  model_root_check : (path : String) → Command
  instance_install : InstallArgs → Command
  instance_start : StartArgs → Command
  instance_stop : StopArgs → Command
  instance_status : PortArgs → Command
  instance_ready : PortArgs → Command
  instance_logs : LogsArgs → Command

module _ (sorted : List String → List String) (catalog : Catalog) where
  -- `args.func(args)`
  unfoldable pub dispatch : Command → Action ℕ
  dispatch (host_probe data_root) = command_host_probe catalog data_root
  dispatch (model_root_check path) = command_model_root_check path
  dispatch (instance_install args) = command_instance_install sorted catalog args
  dispatch (instance_start args) = command_instance_start args
  dispatch (instance_stop args) = command_instance_stop args
  dispatch (instance_status args) = command_instance_status args
  dispatch (instance_ready args) = command_instance_ready args
  dispatch (instance_logs args) = command_instance_logs args

  unfoldable pub main : Command → Action ℕ
  unfolding dispatch handled
  main command env m = let (r, m') = dispatch command env m in handled r env m'
