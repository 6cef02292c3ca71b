-- ===== src/Comfyctl/Start.antt =====
-- `command_instance_start` of comfyctl/cli.py. Times are in milliseconds.
pub mod Launch
pub mod PidFile
use Prim.Native.String.{◌++◌ as ◌<>◌}
use comfy_shell_v.Prelude.{
  ℕ, ℤ, pos, zero, suc, ◌+◌, ◌/◌, String, Bool, not, Option, none, some, List, [], ◌∷◌, ltb, get_or,
  if◌then◌else◌, ⊤,
}
use comfy_shell_v.Prelude.Json.{Fields, str, number, field, end}
use comfy_shell_v.Prelude.Decimal.{show_ℕ}
use comfy_shell_v.Prelude.Lines.{join}
use comfy_shell_v.Comfyctl.Paths.{AbsolutePath, InstancePaths, child}
use comfy_shell_v.Comfyctl.Machine.{
  Files, file, write, Signal, terminate, kill, Killed, delivered, no_process, Action, pure, raise,
  raise_crash, raise_if, out_of_fuel, gets, ask, change, path_exists, write_text, written, sleep,
  record_signal, success, ◌>>=◌, ◌>>◌,
}
use comfy_shell_v.Comfyctl.Tools.{
  exit_precondition, exit_runtime, command_failure, path_text, show_ℤ, is_zero, port_open,
  ensure_port_free, tail_file, write_extra_model_paths, ensure_instance_dirs,
}

-- `startup_timeout_text` is how Python writes the number of seconds.
pub record StartArgs : Type 0 where
  pub id : String
  pub slug : String
  pub data_root : String
  pub host : String
  pub port : ℕ
  pub model_root : List String
  pub gpu : List String
  pub startup_timeout : ℕ
  pub startup_timeout_text : String

-- `path.open("ab")`, which makes the file
abbrev pub touched : AbsolutePath → Files → Files
touched path files = written path (get_or (files path) (file "")) files

abbrev pub open_log : AbsolutePath → Action ⊤
open_log path = change (write path) (touched path)

abbrev pub visible_devices : List String → Option String
visible_devices [] = none
visible_devices (gpu ∷ gpus) = some (join "," (gpu ∷ gpus))

abbrev pub or_os_error : Option ℤ → Action ℤ
or_os_error none = raise_crash
or_os_error (some pid) = pure pid

-- CommandFailure(EXIT_RUNTIME, "PROCESS_START_FAILED", ...) with the end of the log file
abbrev pub raise_not_started : {A : Type 0} → String → InstancePaths → Action A
raise_not_started message paths = do
  tail ← tail_file paths.log_file
  raise (record (command_failure exit_runtime "PROCESS_START_FAILED" message "process") {
    log_path = some (path_text paths.log_file);
    stderr_tail = tail;
  })

abbrev pub answered : ℤ → Signal → Killed → Action ⊤
answered pid signal delivered = record_signal pid signal
answered pid signal no_process = pure tt
answered pid signal _ = raise_crash

abbrev pub signal_if_running : ℤ → Signal → Option ℤ → Action ⊤
signal_if_running pid signal (some _) = pure tt
signal_if_running pid signal none = do
  answer ← ask (λ env t. env.kill t pid signal)
  answered pid signal answer

-- `process.terminate()` and `process.kill()`, which signal only a process that has not ended
unfoldable pub send_to_child : ℤ → Signal → Action ⊤
send_to_child pid signal = do
  exit_code ← ask (λ env t. env.poll t pid)
  signal_if_running pid signal exit_code

-- `process.wait(timeout=3)` behind a kill, where TimeoutExpired is not caught
abbrev pub kill_and_wait : ℤ → Action ⊤
kill_and_wait pid = do
  send_to_child pid kill
  has_ended ← ask (λ env t. env.ends t pid)
  (if has_ended then pure tt else raise_crash)

abbrev pub late_message : StartArgs → String
late_message args =
    "process did not open port "
    <> show_ℕ args.port
    <> " within "
    <> args.startup_timeout_text
    <> " seconds"

-- What follows the loop of `command_instance_start`
unfoldable pub give_up : StartArgs → InstancePaths → ℤ → Action ℕ
unfolding send_to_child tail_file path_text show_ℕ
give_up args paths pid = do
  send_to_child pid terminate
  has_ended ← ask (λ env t. env.ends t pid)
  (if has_ended then pure tt else kill_and_wait pid)
  raise_not_started (late_message args) paths

abbrev pub start_payload : StartArgs → InstancePaths → ℤ → Fields
start_payload args paths pid = field "instance_id" (str args.id) (
    field "pid" (number (show_ℤ pid) (is_zero pid)) (
      field "host" (str args.host) (
        field "port" (number (show_ℕ args.port) (is_zero (pos args.port)))
          (field "log_path" (str (path_text paths.log_file)) end))))

-- The process answers on its port.
unfoldable pub started : StartArgs → InstancePaths → ℤ → Action ℕ
unfolding show_ℤ show_ℕ path_text
started args paths pid = do
  write_text paths.pid_file (show_ℤ pid)
  success (start_payload args paths pid)

abbrev pub exited_early : InstancePaths → Option ℤ → Action ⊤
exited_early paths none = pure tt
exited_early paths (some code) =
    raise_not_started ("process exited during startup with code " <> show_ℤ code) paths

-- The rest of a round of the loop, once the port has been tried, and once the process has been polled
abbrev pub after_try : StartArgs → InstancePaths → ℤ → Action ℕ → Bool → Action ℕ
after_try args paths pid again is_open =
    if is_open then started args paths pid else (do sleep 200; again)

abbrev pub after_poll : StartArgs → InstancePaths → ℤ → Action ℕ → Option ℤ → Action ℕ
after_poll args paths pid again exit_code = do
  exited_early paths exit_code
  is_open ← port_open args.host args.port
  after_try args paths pid again is_open

-- The loop until the deadline
unfoldable pub await_port : ℕ → StartArgs → InstancePaths → ℤ → ℕ → Action ℕ
unfolding give_up started tail_file path_text show_ℤ port_open
await_port zero args paths pid deadline = out_of_fuel
await_port (suc fuel) args paths pid deadline =
    let again = await_port fuel args paths pid deadline in
    do
      now ← gets (λ m. m.now)
      (if ltb now deadline
          then (do
            exit_code ← ask (λ env t. env.poll t pid)
            after_poll args paths pid again exit_code)
          else give_up args paths pid)

-- A round of the loop takes 200 milliseconds at least.
abbrev pub poll_rounds : ℕ → ℕ
poll_rounds timeout = suc (suc (timeout / 200))

abbrev pub start_command : StartArgs → InstancePaths → List String
start_command args paths =
    path_text (child (child paths.venv "bin") "python")
    ∷ "main.py"
    ∷ "--listen"
    ∷ args.host
    ∷ "--port"
    ∷ show_ℕ args.port
    ∷ "--extra-model-paths-config"
    ∷ path_text paths.extra_model_paths
    ∷ []

-- What is done before the process is made, and the making of it
unfoldable pub launch : StartArgs → InstancePaths → Action ℤ
unfolding ensure_port_free write_extra_model_paths path_text show_ℕ join
launch args paths = do
  has_checkout ← path_exists paths.checkout
  raise_if (not has_checkout) (
      command_failure exit_precondition "INSTANCE_NOT_INSTALLED" "ComfyUI checkout does not exist"
        "filesystem")
  ensure_port_free args.host args.port
  write_extra_model_paths paths.extra_model_paths args.model_root
  has_python ← path_exists (child (child paths.venv "bin") "python")
  raise_if (not has_python)
      (command_failure exit_precondition "VENV_MISSING" "instance venv does not exist" "python")
  open_log paths.log_file
  child_process ←
      ask
        (λ env t. env.spawn t (start_command args paths) paths.checkout (visible_devices args.gpu))
  or_os_error child_process

unfoldable pub command_instance_start : StartArgs → Action ℕ
unfolding launch await_port ensure_instance_dirs
command_instance_start args = do
  paths ← ensure_instance_dirs args.data_root args.slug
  pid ← launch args paths
  now ← gets (λ m. m.now)
  await_port (poll_rounds args.startup_timeout) args paths pid (now + args.startup_timeout)
