-- ===== src/Comfy/Requests.antt =====
-- The calls that a client makes of ComfyService, and a run of them.
use comfy_shell_v.Prelude.{ℕ, String, Option, List, [], ◌∷◌, ⊤}
use comfy_shell_v.Db.{install, reinstall}
use comfy_shell_v.Uow.{Env, World, Action, pure, ◌>>◌}
use comfy_shell_v.Comfy.Config.{Config}
use comfy_shell_v.Comfy.Hosts
use comfy_shell_v.Comfy.Hosts.{HostCreateRequest, ModelRootCreateRequest}
use comfy_shell_v.Comfy.Instances
use comfy_shell_v.Comfy.Launch
use comfy_shell_v.Comfy.Instances.{InstanceCreateRequest}
use comfy_shell_v.Comfy.Launch.{LaunchConfigUpdate}
use comfy_shell_v.Comfy.Runs
use comfy_shell_v.Comfy.Operations
use comfy_shell_v.Comfy.Operations.{InstanceInstallRequest}

-- The routes of app/api/routes/comfy.py that reach the database.
pub data Request : Type 0 where
  list_hosts : Request
  create_host : HostCreateRequest → Request
  probe_host : String → Request
  list_model_roots : Option String → Request
  create_model_root : ModelRootCreateRequest → Request
  check_model_root : String → Request
  list_instances : Option String → Request
  create_instance : InstanceCreateRequest → Request
  get_instance : String → Request
  update_launch_config : String → LaunchConfigUpdate → Request
  install_instance : String → InstanceInstallRequest → Request
  reinstall_instance : String → InstanceInstallRequest → Request
  start_instance stop_instance : String → Request
  status_instance ready_instance : String → Request
  logs_instance : String → ℕ → Request
  list_runs : Option String → Request
  get_run : String → Request

-- The answer is dropped: what matters here is what a call leaves behind.
abbrev forget {ℓ} : {A : Type ℓ} → Action A → Action ⊤
forget m = do m; pure tt

unfoldable pub handle : Config → Request → Action ⊤
handle cfg list_hosts = forget (Hosts.list_hosts cfg)
handle cfg (create_host req) = forget (Hosts.create_host cfg req)
handle cfg (probe_host id) = forget (Hosts.probe_host cfg id)
handle cfg (list_model_roots host_id) = forget (Hosts.list_model_roots cfg host_id)
handle cfg (create_model_root req) = forget (Hosts.create_model_root req)
handle cfg (check_model_root id) = forget (Hosts.check_model_root cfg id)
handle cfg (list_instances host_id) = forget (Instances.list_instances cfg host_id)
handle cfg (create_instance req) = forget (Instances.create_instance cfg req)
handle cfg (get_instance id) = forget (Instances.get_instance cfg id)
handle cfg (update_launch_config id req) = forget (Launch.update_instance_launch_config cfg id req)
handle cfg (install_instance id req) = forget (Operations.install_instance cfg id req install)
handle cfg (reinstall_instance id req) = forget (Operations.install_instance cfg id req reinstall)
handle cfg (start_instance id) = forget (Operations.start_instance cfg id)
handle cfg (stop_instance id) = forget (Operations.stop_instance cfg id)
handle cfg (status_instance id) = forget (Operations.status_instance cfg id)
handle cfg (ready_instance id) = forget (Operations.ready_instance cfg id)
handle cfg (logs_instance id tail) = forget (Operations.logs_instance cfg id tail)
handle cfg (list_runs instance_id) = forget (Runs.list_runs instance_id)
handle cfg (get_run id) = forget (Runs.get_run id)

-- One request after the other; an error ends only its own request.
unfoldable pub serve : Config → List Request → Env → World → World
unfolding handle
serve cfg [] env w = w
serve cfg (req ∷ rest) env w = serve cfg rest env (handle cfg req env w).1
