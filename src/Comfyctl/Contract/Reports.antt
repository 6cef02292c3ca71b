-- ===== src/Comfyctl/Contract/Reports.antt =====
-- The ends of the commands of comfyctl/cli.py that only look: status, ready, logs, probe and the check
-- of a model root.
use comfy_shell_v.Prelude.{
  ℤ, String, Bool, true, false, refl, inl, Option, none, some, [], ◌∷◌, if◌then◌else◌,
}
use comfy_shell_v.Comfyctl.Catalog.{Catalog}
use comfy_shell_v.Comfyctl.Catalog.Recommend as Recommend
use comfy_shell_v.Comfyctl.Catalog.Recommend.{Recommendation, recommendation}
use comfy_shell_v.Comfyctl.Paths.{InstancePaths}
use comfy_shell_v.Comfyctl.Machine.{
  HttpAnswer, status, url_error, bad_url, other_error, ask, gets, pure, path_exists, is_dir,
  read_text_lossy,
}
use comfy_shell_v.Comfyctl.Processes.{read_pid}
use comfy_shell_v.Comfyctl.Tools.{port_open, run_command, ensure_data_dirs, instance_paths_of}
use comfy_shell_v.Comfyctl.Status.{
  PortArgs, alive_of, owner_of, report_of, instance_report, command_instance_status, readiness,
  ready_url, command_instance_ready, LogsArgs, logs_at, command_instance_logs,
}
use comfy_shell_v.Comfyctl.Probe.{
  GpuInfo, inspect_nvidia_smi, recommended_or_raise, runtime_recommendation, probe_payload,
  root_payload, command_host_probe, command_model_root_check,
}
use comfy_shell_v.Comfyctl.Contract.{Quiet, Finishes, bind-Quiet, bind-Finishes, success-Finishes}
use comfy_shell_v.Comfyctl.Contract.Leaves.{
  pure-Quiet, crash-Quiet, gets-Quiet, ask-Quiet, if-Quiet, port_open-Quiet, run_command-Quiet,
  read_text_lossy-Quiet,
}
use comfy_shell_v.Comfyctl.Contract.Directories.{instance_paths_of-Quiet, ensure_data_dirs-Quiet}
use comfy_shell_v.Comfyctl.Contract.Processes.{
  read_pid-Quiet, process_alive-Quiet, process_owned_by_instance-Quiet,
}

alive_of-Quiet : (pid : Option ℤ) → Quiet (alive_of pid)
alive_of-Quiet none = pure-Quiet false
alive_of-Quiet (some pid) = process_alive-Quiet pid

owner_of-Quiet :
    (paths : InstancePaths) (pid : Option ℤ) (is_alive : Bool) → Quiet (owner_of paths pid is_alive)
owner_of-Quiet paths none is_alive = pure-Quiet false
owner_of-Quiet paths (some pid) false = pure-Quiet false
owner_of-Quiet paths (some pid) true = process_owned_by_instance-Quiet pid paths

pub instance_report-Quiet :
    (args : PortArgs) (paths : InstancePaths) → Quiet (instance_report args paths)
unfolding instance_report
instance_report-Quiet args paths =
    bind-Quiet (read_pid paths.pid_file) _ (read_pid-Quiet paths.pid_file) λ pid.
      bind-Quiet (alive_of pid) _ (alive_of-Quiet pid) λ pid_process_alive.
        bind-Quiet (owner_of paths pid pid_process_alive) _
          (owner_of-Quiet paths pid pid_process_alive)
          λ alive.
            bind-Quiet (port_open args.host args.port) _ (port_open-Quiet args.host args.port)
              λ is_open. bind-Quiet (path_exists paths.manifest) _ (gets-Quiet _) λ has_manifest.
                pure-Quiet (report_of pid pid_process_alive alive is_open has_manifest)

pub status-Finishes : (args : PortArgs) → Finishes (command_instance_status args)
unfolding command_instance_status
status-Finishes args =
    bind-Finishes (instance_paths_of args.data_root args.slug) _
      (instance_paths_of-Quiet args.data_root args.slug)
      λ paths.
        bind-Finishes (instance_report args paths) _ (instance_report-Quiet args paths)
          λ report. success-Finishes _ refl

readiness-Finishes : (args : PortArgs) (answer : HttpAnswer) → Finishes (readiness args answer)
readiness-Finishes args (status n) = success-Finishes _ refl
readiness-Finishes args (url_error reason) = success-Finishes _ refl
readiness-Finishes args (bad_url text) = record { at = λ env m. refl }
readiness-Finishes args other_error = record { at = λ env m. inl refl }

pub ready-Finishes : (args : PortArgs) → Finishes (command_instance_ready args)
unfolding command_instance_ready
ready-Finishes args =
    bind-Finishes (ask (λ env t. env.fetch t (ready_url args))) _ (ask-Quiet _)
      λ answer. readiness-Finishes args answer

logs_at-Finishes :
    (args : LogsArgs) (paths : InstancePaths) (is_there : Bool)
    → Finishes (logs_at args paths is_there)
logs_at-Finishes args paths false = success-Finishes _ refl
logs_at-Finishes args paths true =
    bind-Finishes (read_text_lossy paths.log_file) _ (read_text_lossy-Quiet paths.log_file)
      λ text. success-Finishes _ refl

pub logs-Finishes : (args : LogsArgs) → Finishes (command_instance_logs args)
unfolding command_instance_logs
logs-Finishes args =
    bind-Finishes (instance_paths_of args.data_root args.slug) _
      (instance_paths_of-Quiet args.data_root args.slug)
      λ paths.
        bind-Finishes (path_exists paths.log_file) _ (gets-Quiet _)
          λ is_there. logs_at-Finishes args paths is_there

inspect-Quiet : (tool : Option String) → Quiet (inspect_nvidia_smi tool)
unfolding inspect_nvidia_smi
inspect-Quiet none = pure-Quiet _
inspect-Quiet (some tool) = bind-Quiet (run_command _ none) _ (run_command-Quiet _ none) λ query.
    bind-Quiet (run_command (tool ∷ []) none) _ (run_command-Quiet (tool ∷ []) none)
      λ summary. pure-Quiet {A = GpuInfo} _

recommended-Quiet :
    (info : GpuInfo) (outcome : Recommend.Outcome) → Quiet (recommended_or_raise info outcome)
recommended-Quiet info (Recommend.recommended r) = pure-Quiet r
recommended-Quiet info Recommend.key_error = crash-Quiet
recommended-Quiet info Recommend.value_error = record {
  ends = λ env m. refl;
  prints_nothing = λ env m. refl;
  sends_nothing = λ env m. refl;
}

pub probe-Finishes :
    (catalog : Catalog) (data_root : String) → Finishes (command_host_probe catalog data_root)
unfolding command_host_probe runtime_recommendation
probe-Finishes catalog data_root =
    bind-Finishes (ensure_data_dirs data_root) _ (ensure_data_dirs-Quiet data_root) λ paths.
      bind-Finishes (ask (λ env t. env.which t "nvidia-smi")) _ (ask-Quiet _) λ tool.
        bind-Finishes (inspect_nvidia_smi tool) _ (inspect-Quiet tool) λ info.
          bind-Finishes (runtime_recommendation catalog info) _
            (recommended-Quiet info (recommendation catalog info.cuda_version info.gpus))
            λ advice. bind-Finishes (ask (λ env t. env.which t "git")) _ (ask-Quiet _) λ git.
              bind-Finishes (ask (λ env t. env.which t "uv")) _ (ask-Quiet _) λ uv.
                bind-Finishes (ask (λ env t. env.executable)) _ (ask-Quiet _) λ executable.
                  success-Finishes (probe_payload paths git uv executable info advice) refl

pub root_check-Finishes : (path : String) → Finishes (command_model_root_check path)
unfolding command_model_root_check
root_check-Finishes path =
    bind-Finishes (ask (λ env t. env.absolute path)) _ (ask-Quiet _) λ target.
      bind-Finishes (path_exists target) _ (gets-Quiet _) λ is_there.
        bind-Finishes (gets (λ m. is_dir m.files target)) _ (gets-Quiet _) λ is_directory.
          bind-Finishes (if is_there then ask (λ env t. env.readable t target) else pure false) _
            (if-Quiet is_there (ask (λ env t. env.readable t target)) (pure false) (ask-Quiet _)
              (pure-Quiet false))
            λ can_read. success-Finishes (root_payload target is_there is_directory can_read) refl
