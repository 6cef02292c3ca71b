-- ===== src/Comfyctl/Stop.antt =====
-- `command_instance_stop` of comfyctl/cli.py. Times are in milliseconds.
pub mod Signals
use Prim.Native.String.{◌++◌ as ◌<>◌}
use comfy_shell_v.Prelude.{
  ℕ, ℤ, zero, suc, ◌+◌, String, Bool, true, false, not, Option, none, some, ltb, if◌then◌else◌, ⊤,
}
use comfy_shell_v.Prelude.Json.{Fields, str, number, bool, field, end}
use comfy_shell_v.Comfyctl.Paths.{InstancePaths}
use comfy_shell_v.Comfyctl.Machine.{
  terminate, CommandFailure, Action, pure, raise, raise_if, out_of_fuel, gets, sleep,
  unlink_if_there, success, ◌>>=◌, ◌>>◌,
}
use comfy_shell_v.Comfyctl.Tools.{exit_runtime, command_failure, show_ℤ, is_zero, instance_paths_of}
use comfy_shell_v.Comfyctl.Processes.{
  read_pid, process_alive, process_owned_by_instance, send_signal,
}
use comfy_shell_v.Comfyctl.Start.{poll_rounds}

pub record StopArgs : Type 0 where
  pub id : String
  pub slug : String
  pub data_root : String
  pub timeout : ℕ

abbrev pub not_stopped : StopArgs → String → Fields
not_stopped args reason =
    field "instance_id" (str args.id)
      (field "stopped" (bool false) (field "reason" (str reason) end))

abbrev pub stopped : StopArgs → ℤ → Fields
stopped args pid =
    field "instance_id" (str args.id)
      (field "stopped" (bool true) (field "pid" (number (show_ℤ pid) (is_zero pid)) end))

-- The process has ended: its pid file goes.
unfoldable pub forget : InstancePaths → Fields → Action ℕ
forget paths payload = do unlink_if_there paths.pid_file; success payload

-- The loop until the deadline
unfoldable pub await_end : ℕ → StopArgs → InstancePaths → ℤ → ℕ → Action ℕ
unfolding process_alive forget show_ℤ
await_end zero args paths pid deadline = out_of_fuel
await_end (suc fuel) args paths pid deadline =
    let again = await_end fuel args paths pid deadline in
    do
      now ← gets (λ m. m.now)
      (if ltb now deadline
          then (do
            is_alive ← process_alive pid
            (if is_alive then (do sleep 200; again) else forget paths (stopped args pid)))
          else raise (
              command_failure exit_runtime "PROCESS_STOP_TIMEOUT"
                ("process " <> show_ℤ pid <> " did not stop") "process"))

-- The signal to a process that is the instance's, and the wait for its end
unfoldable pub end_process : StopArgs → InstancePaths → ℤ → Action ℕ
unfolding await_end send_signal
end_process args paths pid = do
  send_signal pid terminate
  now ← gets (λ m. m.now)
  await_end (poll_rounds args.timeout) args paths pid (now + args.timeout)

abbrev pub outside : ℤ → CommandFailure
outside pid =
    command_failure exit_runtime "PID_INVALID"
      ("pid file points to a process outside this instance: " <> show_ℤ pid) "process"

unfoldable pub stop_alive : StopArgs → InstancePaths → ℤ → Action ℕ
unfolding process_owned_by_instance show_ℤ end_process
stop_alive args paths pid = do
  is_owned ← process_owned_by_instance pid paths
  raise_if (not is_owned) (outside pid)
  end_process args paths pid

unfoldable pub stop_pid : StopArgs → InstancePaths → Option ℤ → Action ℕ
unfolding process_alive forget stop_alive
stop_pid args paths none = success (not_stopped args "pid_file_missing")
stop_pid args paths (some pid) = do
  is_alive ← process_alive pid
  (if is_alive
      then stop_alive args paths pid
      else forget paths (not_stopped args "process_not_alive"))

unfoldable pub command_instance_stop : StopArgs → Action ℕ
unfolding read_pid stop_pid instance_paths_of
command_instance_stop args = do
  paths ← instance_paths_of args.data_root args.slug
  pid ← read_pid paths.pid_file
  stop_pid args paths pid
