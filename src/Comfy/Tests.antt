-- ===== src/Comfy/Tests.antt =====
-- Runs of the control plane on a small environment, and its theorems at concrete inputs.
use comfy_shell_v.Prelude.{
  pos, false, ℕ, String, ◌≡◌, refl, Option, none, some, List, [], ◌∷◌, map, find,
}
use comfy_shell_v.Prelude.Decimal.{show_ℕ}
use comfy_shell_v.Db.{
  Db, CommandRun, Host, Instance, local, stop, completed, install, CommandKind, start, running,
  empty,
}
use comfy_shell_v.Uow.{World, ok}
use comfy_shell_v.Comfy.Responses.{RunResponse}
use comfy_shell_v.Comfy.Operations.{
  start_instance, stop_instance, install_instance, InstanceInstallRequest,
}
use comfy_shell_v.Comfy.Operations.Outcome.{
  IsCompleted, start_instance-IsCompleted, stop_instance-IsCompleted,
}
use comfy_shell_v.Comfy.Operations.Install.{
  install_instance-unchanged, install_instance-IsCompleted,
}
use comfy_shell_v.Uow.Rules.{is_ok}
use comfy_shell_v.Comfy.Runs.{run_recorded}
use comfy_shell_v.Comfy.Runs.Closing.{run_recorded-phase, phase_after}
use comfy_shell_v.Comfy.Repository.Runs.{run_with_id}
use comfy_shell_v.Fixture.{quiet_env, quiet_env-IsQuiet, start_world, cfg}
use comfy_shell_v.Prelude.Text.{join_path}
use comfy_shell_v.Comfyctl.Catalog.{version_by_id, runtime_profile_by_id}
use comfy_shell_v.Comfy.Config.{default_model_root_path, resolved_data_root}
use comfy_shell_v.Comfy.Hosts.{create_model_root, list_hosts}
use comfy_shell_v.Comfy.Instances.{create_instance, plan_instance, pick_roots, store_instance}
use comfy_shell_v.Comfy.Requests.{Request, serve}
use comfy_shell_v.Comfy.Coherent.{IsCoherent, Rely, Guarantee-refl}
use comfy_shell_v.Comfy.Coherent.Run.{serve-IsCoherent}

quiet-Rely : Rely quiet_env
quiet-Rely = record { others = λ t db. Guarantee-refl db }

empty-IsCoherent : IsCoherent start_world.committed
empty-IsCoherent = record { at = λ id i e. cc }

-- The default host and its model root have the ids of ticks 1 and 4.
abbrev script : List Request
script =
    Request.list_hosts
    ∷ Request.create_model_root (record { host_id = "id-1"; label = "more"; path = "/more" })
    ∷ Request.create_instance (record {
      host_id = "id-1";
      name = "one";
      instance_slug = "one";
      comfy_version_id = some "v1";
      runtime_profile_id = some "cpu";
      comfy_ref = none;
      python_version = none;
      torch_profile = none;
      comfy_port = none;
      gpu_ids = [];
      model_root_ids = [];
      primary_model_root_id = none;
    })
    ∷ []

abbrev summary : Db → List (String × String × ℕ × Option String)
summary db = map (λ i. (i.id, i.comfy_ref, i.comfy_port, i.primary_model_root_id)) db.instances

script_instances :
    summary (serve cfg script quiet_env start_world).committed
    ≡ ("id-13", "abc", 8188, some "id-4") ∷ []
unfolding serve show_ℕ create_instance plan_instance pick_roots store_instance create_model_root
    list_hosts default_model_root_path resolved_data_root join_path version_by_id
    runtime_profile_by_id
script_instances = refl

serve-IsCoherent_example : IsCoherent (serve cfg script quiet_env start_world).committed
serve-IsCoherent_example =
    serve-IsCoherent cfg script quiet_env start_world quiet-Rely empty-IsCoherent

abbrev one_run : CommandRun
one_run = record {
  id = "r";
  request_id = "req-1";
  host_id = "h";
  instance_id = some "i";
  kind = start;
  phase = running;
  started_at = 10;
  ended_at = none;
  exit_code = none;
  error_code = none;
  message = none;
  log_path = none;
  stderr_tail = none;
}

abbrev run_world : World
run_world = record {
  committed = record empty { command_runs = one_run ∷ [] };
  session = empty;
  tick = 0;
}

run_recorded-phase_example :
    let (result, w') = run_recorded cfg "r" ("x" ∷ []) quiet_env run_world in
    (r' : CommandRun) × (find (run_with_id "r") w'.committed.command_runs ≡ some r')
    × (r'.phase ≡ phase_after result)
    × (r'.kind ≡ start)
    × (r'.instance_id ≡ some "i")
run_recorded-phase_example =
    run_recorded-phase cfg "r" ("x" ∷ []) quiet_env run_world one_run quiet_env-IsQuiet refl refl

-- A host with one instance, which has no model roots
abbrev one_host : Host
one_host = record {
  id = "h";
  name = "local";
  connection = local;
  ssh_target = none;
  service_root = "/srv";
  data_root = "/data";
  host_key_fingerprint = none;
  created_at = 0;
  updated_at = 0;
}

abbrev one_instance : Instance
one_instance = record {
  id = "i";
  host_id = "h";
  name = "one";
  instance_slug = "one";
  comfy_ref = "abc";
  resolved_commit = none;
  python_version = "3.12";
  torch_profile = "cpu";
  comfy_port = 8188;
  gpu_ids = [];
  primary_model_root_id = none;
  created_at = 0;
  updated_at = 0;
  last_launched_at = none;
}

abbrev instance_world : World
instance_world = record {
  committed = record empty { hosts = one_host ∷ []; instances = one_instance ∷ [] };
  session = empty;
  tick = 0;
}

abbrev completed_run : CommandKind → String → String → String → RunResponse
completed_run kind id started_at ended_at = record {
  id = id;
  request_id = "req-1";
  host_id = "h";
  instance_id = some "i";
  kind = kind;
  phase = completed;
  started_at = started_at;
  ended_at = some ended_at;
  exit_code = some (pos 0);
  error_code = none;
  message = none;
  log_path = none;
  stderr_tail = some "";
}

abbrev started : RunResponse
started = completed_run start "id-3" "40" "70"

run_start : (start_instance cfg "i" quiet_env instance_world).0 ≡ ok started
unfolding start_instance show_ℕ
run_start = refl

run_stop :
    (stop_instance cfg "i" quiet_env instance_world).0 ≡ ok (completed_run stop "id-3" "40" "70")
unfolding stop_instance show_ℕ
run_stop = refl

start_instance-IsCompleted_example : IsCompleted started start "i"
start_instance-IsCompleted_example =
    start_instance-IsCompleted cfg "i" quiet_env instance_world started quiet_env-IsQuiet run_start

stop_instance-IsCompleted_example : IsCompleted (completed_run stop "id-3" "40" "70") stop "i"
stop_instance-IsCompleted_example =
    stop_instance-IsCompleted cfg "i" quiet_env instance_world (completed_run stop "id-3" "40" "70")
      quiet_env-IsQuiet run_stop

abbrev plain_install : InstanceInstallRequest
plain_install = record { comfy_version_id = none; comfy_ref = none; restart = false }

run_install :
    (install_instance cfg "i" plain_install install quiet_env instance_world).0
    ≡ ok (completed_run install "id-4" "50" "80")
unfolding install_instance show_ℕ
run_install = refl

install_instance-IsCompleted_example :
    IsCompleted (completed_run install "id-4" "50" "80") install "i"
install_instance-IsCompleted_example =
    install_instance-IsCompleted cfg "i" plain_install install quiet_env instance_world
      (completed_run install "id-4" "50" "80") quiet_env-IsQuiet refl run_install

abbrev mixed_install : InstanceInstallRequest
mixed_install = record { comfy_version_id = some "v1"; comfy_ref = some "abc"; restart = false }

run_mixed_install :
    is_ok (install_instance cfg "i" mixed_install install quiet_env instance_world).0 ≡ false
unfolding install_instance show_ℕ
run_mixed_install = refl

install_instance-unchanged_example :
    (install_instance cfg "i" mixed_install install quiet_env instance_world).1.committed.instances
    ≡ one_instance ∷ []
install_instance-unchanged_example =
    install_instance-unchanged cfg "i" mixed_install install quiet_env instance_world
      quiet_env-IsQuiet refl run_mixed_install
