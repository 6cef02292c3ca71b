-- ===== src/Comfyctl/Status.antt =====
-- `command_instance_status`, `command_instance_ready` and `command_instance_logs` of comfyctl/cli.py.
pub mod Tail
pub mod Logs
pub mod Report
use Prim.Native.String.{◌++◌ as ◌<>◌}
use comfy_shell_v.Prelude.{
  ℕ, ℤ, pos, negsuc, zero, suc, ◌-◌, String, Bool, true, false, not, ◌&&◌, Option, none, some, List,
  [], ◌∷◌, leb, ltb, length, if◌then◌else◌,
}
use comfy_shell_v.Prelude.Json.{
  Json, Items, Fields, null, str, number, bool, array, object, nil, cons, field, end,
}
use comfy_shell_v.Prelude.Decimal.{show_ℕ}
use comfy_shell_v.Prelude.Lines.{split_lines}
use comfy_shell_v.Comfyctl.Paths.{AbsolutePath, InstancePaths}
use comfy_shell_v.Comfyctl.Machine.{
  HttpAnswer, status, url_error, bad_url, other_error, Action, pure, raise_crash, raise_value_error,
  ask, path_exists, read_text_lossy, success, ◌>>=◌, ◌>>◌,
}
use comfy_shell_v.Comfyctl.Tools.{path_text, show_ℤ, is_zero, port_open, instance_paths_of}
use comfy_shell_v.Comfyctl.Processes.{read_pid, process_alive, process_owned_by_instance}

-- The arguments of `instance status` and `instance ready`
pub record PortArgs : Type 0 where
  pub id : String
  pub slug : String
  pub data_root : String
  pub host : String
  pub port : ℕ

-- What `instance status` has found out when it prints
pub record InstanceReport : Type 0 where
  pub manifest_exists : Bool
  pub pid : Option ℤ
  pub process_alive : Bool
  pub pid_process_alive : Bool
  pub pid_owner_valid : Bool
  pub port_open : Bool
  pub port_listening : Bool
  pub port_in_use_by_other : Bool

abbrev pub alive_of : Option ℤ → Action Bool
alive_of none = pure false
alive_of (some pid) = process_alive pid

abbrev pub owner_of : InstancePaths → Option ℤ → Bool → Action Bool
owner_of paths (some pid) true = process_owned_by_instance pid paths
owner_of paths _ _ = pure false

abbrev pub report_of : Option ℤ → Bool → Bool → Bool → Bool → InstanceReport
report_of pid pid_process_alive alive port_is_open manifest_exists = record {
  manifest_exists = manifest_exists;
  pid = pid;
  process_alive = alive;
  pid_process_alive = pid_process_alive;
  pid_owner_valid = alive;
  port_open = port_is_open;
  port_listening = if alive then port_is_open else false;
  port_in_use_by_other = port_is_open && not alive;
}

unfoldable pub instance_report : PortArgs → InstancePaths → Action InstanceReport
unfolding read_pid process_alive process_owned_by_instance port_open
instance_report args paths = do
  pid ← read_pid paths.pid_file
  pid_process_alive ← alive_of pid
  alive ← owner_of paths pid pid_process_alive
  port_is_open ← port_open args.host args.port
  manifest_exists ← path_exists paths.manifest
  pure (report_of pid pid_process_alive alive port_is_open manifest_exists)

abbrev pid_json : Option ℤ → Json
pid_json none = null
pid_json (some pid) = number (show_ℤ pid) (is_zero pid)

abbrev pub report_fields : PortArgs → InstancePaths → InstanceReport → Fields
report_fields args paths r = field "install_root" (str (path_text paths.root)) (
    field "manifest_path" (str (path_text paths.manifest)) (
      field "manifest_exists" (bool r.manifest_exists) (
        field "pid_file" (str (path_text paths.pid_file)) (
          field "pid" (pid_json r.pid) (
            field "process_alive" (bool r.process_alive) (
              field "pid_process_alive" (bool r.pid_process_alive) (
                field "pid_owner_valid" (bool r.pid_owner_valid) (
                  field "port" (number (show_ℕ args.port) (is_zero (pos args.port))) (
                    field "port_open" (bool r.port_open) (
                      field "port_listening" (bool r.port_listening) (
                        field "port_in_use_by_other" (bool r.port_in_use_by_other) (
                          field "open_url" (str ("http://127.0.0.1:" <> show_ℕ args.port <> "/"))
                            (field "log_path" (str (path_text paths.log_file)) end)))))))))))))

unfoldable pub command_instance_status : PortArgs → Action ℕ
unfolding instance_paths_of instance_report path_text show_ℕ show_ℤ
command_instance_status args = do
  paths ← instance_paths_of args.data_root args.slug
  report ← instance_report args paths
  success (
      field "instance_id" (str args.id) (
        field "layer" (str "process")
          (field "data" (object (report_fields args paths report)) end)))

unfoldable pub ready_url : PortArgs → String
unfolding show_ℕ
ready_url args = "http://" <> args.host <> ":" <> show_ℕ args.port <> "/system_stats"

abbrev ready_payload : PortArgs → Bool → Fields → Fields
ready_payload args is_ready details = field "instance_id" (str args.id) (
    field "ready" (bool is_ready) (
      field "layer" (str "comfy")
        (field "data" (object (field "url" (str (ready_url args)) details)) end)))

-- `urlopen` raises URLError for a status of 400 or more, too.
abbrev pub readiness : PortArgs → HttpAnswer → Action ℕ
readiness args (status n) = success (ready_payload args (leb 200 n && ltb n 300) end)
readiness args (url_error reason) =
    success (ready_payload args false (field "reason" (str reason) end))
readiness args (bad_url text) = raise_value_error text
readiness args other_error = raise_crash

unfoldable pub command_instance_ready : PortArgs → Action ℕ
unfolding ready_url
command_instance_ready args = do
  answer ← ask (λ env t. env.fetch t (ready_url args))
  readiness args answer

-- The arguments of `instance logs`
pub record LogsArgs : Type 0 where
  pub id : String
  pub slug : String
  pub data_root : String
  pub tail : ℤ

abbrev pub drop : ℕ → List String → List String
drop zero xs = xs
drop (suc n) [] = []
drop (suc n) (x ∷ xs) = drop n xs

-- `lines[-tail:]`
unfoldable pub last_lines : ℤ → List String → List String
last_lines (pos zero) lines = lines
last_lines (pos (suc n)) lines = drop (length lines - suc n) lines
last_lines (negsuc n) lines = drop (suc n) lines

abbrev pub items_of : List String → Items
items_of [] = nil
items_of (s ∷ ss) = cons (str s) (items_of ss)

abbrev pub log_payload : LogsArgs → InstancePaths → List String → Fields
log_payload args paths lines =
    field "instance_id" (str args.id) (
      field "log_path" (str (path_text paths.log_file))
        (field "lines" (array (items_of lines)) end))

abbrev pub logs_at : LogsArgs → InstancePaths → Bool → Action ℕ
logs_at args paths false = success (log_payload args paths [])
logs_at args paths true = do
  text ← read_text_lossy paths.log_file
  success (log_payload args paths (last_lines args.tail (split_lines text)))

unfoldable pub command_instance_logs : LogsArgs → Action ℕ
unfolding last_lines split_lines path_text instance_paths_of
command_instance_logs args = do
  paths ← instance_paths_of args.data_root args.slug
  is_there ← path_exists paths.log_file
  logs_at args paths is_there
