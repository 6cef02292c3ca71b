-- ===== src/Comfyctl/Tools.antt =====
-- The helpers of comfyctl/cli.py that call other programs, the network and the file system.
use Prim.Native.String.{◌++◌ as ◌<>◌}
use comfy_shell_v.Prelude.{
  ℕ, ℤ, pos, negsuc, suc, String, Bool, true, false, Option, none, some, List, [], ◌∷◌, map, eqb, ⊤,
}
use comfy_shell_v.Prelude.Json.{Json}
use comfy_shell_v.Prelude.Decimal.{show_ℕ}
use comfy_shell_v.Prelude.Text.{last_chars}
use comfy_shell_v.Prelude.Lines.{join, newline}
use comfy_shell_v.Comfyctl.Paths.{
  AbsolutePath, Checked, valid, value_error, ComfyPaths, InstancePaths, comfy_paths, instance_paths,
}
use comfy_shell_v.Comfyctl.Machine.{
  Completed, CommandEnd, finished, file_not_found, other_os_error, not_text, Connection, accepted,
  refused, os_error, bad_name, bad_port, CommandFailure, Action, pure, raise, raise_value_error,
  raise_crash, raise_if, ask, passed, path_exists, read_text_lossy, write_text, mkdir, ◌>>=◌, ◌>>◌,
}

abbrev pub exit_usage : ℕ
exit_usage = 2

abbrev pub exit_precondition : ℕ
exit_precondition = 3

abbrev pub exit_external : ℕ
exit_external = 4

abbrev pub exit_runtime : ℕ
exit_runtime = 5

-- CommandFailure(exit_code, error_code, message, layer)
abbrev pub command_failure : ℕ → String → String → String → CommandFailure
command_failure exit_code error_code message layer = record {
  exit_code = exit_code;
  error_code = error_code;
  message = message;
  layer = layer;
  log_path = none;
  stderr_tail = none;
}

-- `str(path)`
unfoldable pub path_text : AbsolutePath → String
unfolding join
path_text path = "/" <> join "/" path

-- `str(n)` of an integer
unfoldable pub show_ℤ : ℤ → String
unfolding show_ℕ
show_ℤ (pos n) = show_ℕ n
show_ℤ (negsuc n) = "-" <> show_ℕ (suc n)

abbrev head_or_empty : List String → String
head_or_empty [] = ""
head_or_empty (name ∷ _) = name

abbrev missing : List String → CommandFailure
missing command =
    command_failure exit_external "DEPENDENCY_MISSING"
      ("missing executable: " <> head_or_empty command) "python"

-- PermissionError and its like are not caught, and UnicodeDecodeError is a ValueError.
abbrev pub completed : List String → CommandEnd → Action Completed
completed command (finished result) = pure result
completed command file_not_found = raise (missing command)
completed command other_os_error = raise_crash
completed command (not_text text) = raise_value_error text

unfoldable pub run_command : List String → Option AbsolutePath → Action Completed
run_command command cwd env m =
    let (end, files) = env.command m.tick command cwd m.files in
    completed command end env (record (passed env m) { files = files })

abbrev pub is_zero : ℤ → Bool
is_zero (pos n) = eqb n 0
is_zero (negsuc n) = false

-- `result.returncode == 0`
abbrev pub succeeded : Completed → Bool
succeeded result = is_zero result.returncode

unfoldable pub stderr_tail : String → String
unfolding last_chars
stderr_tail value = last_chars 4000 value

abbrev tool_or_raise : String → String → Option String → Action String
tool_or_raise name layer none =
    raise
      (command_failure exit_external "DEPENDENCY_MISSING" ("missing executable: " <> name) layer)
tool_or_raise name layer (some path) = pure path

unfoldable pub require_tool : String → String → Action String
require_tool name layer = do path ← ask (λ env t. env.which t name); tool_or_raise name layer path

abbrev pub connected : String → ℕ → Connection → Action Bool
connected host port accepted = pure true
connected host port refused = pure false
connected host port (os_error text) = raise (
    command_failure exit_runtime "COMFYCTL_FAILED"
      ("failed to check port " <> host <> ":" <> show_ℕ port <> ": " <> text) "process")
connected host port (bad_name text) = raise_value_error text
connected host port bad_port = raise_crash

unfoldable pub port_open : String → ℕ → Action Bool
unfolding show_ℕ
port_open host port = do
  connection ← ask (λ env t. env.connect t host port)
  connected host port connection

unfoldable pub ensure_port_free : String → ℕ → Action ⊤
unfolding port_open show_ℕ
ensure_port_free host port = do
  is_open ← port_open host port
  raise_if is_open (
      command_failure exit_precondition "PORT_IN_USE"
        ("port " <> show_ℕ port <> " is already in use") "process")

unfoldable pub unique_name : String → Action String
unfolding show_ℕ
unique_name prefix =
    ask (λ env t. prefix <> "-" <> show_ℕ (env.seconds t) <> "-" <> show_ℕ env.getpid)

abbrev tail_of : AbsolutePath → Bool → Action (Option String)
tail_of path false = pure none
tail_of path true = do text ← read_text_lossy path; pure (some (last_chars 4000 text))

unfoldable pub tail_file : AbsolutePath → Action (Option String)
unfolding last_chars
tail_file path = do is_there ← path_exists path; tail_of path is_there

-- `write_manifest`, and `write_extra_model_paths`
unfoldable pub write_manifest : AbsolutePath → Json → Action ⊤
write_manifest path payload env m = write_text path (env.dumps payload <> newline) env m

abbrev extra_model_lines : List String → List String
extra_model_lines [] = "comfy_shell:" ∷ "  base_path: /" ∷ "  checkpoints: ''" ∷ []
extra_model_lines (root ∷ roots) =
    "comfy_shell:" ∷ "  base_path: /" ∷ "  checkpoints: |" ∷ map (λ r. "    " <> r) (root ∷ roots)

unfoldable pub write_extra_model_paths : AbsolutePath → List String → Action ⊤
unfolding join
write_extra_model_paths path model_roots =
    write_text path (join newline (extra_model_lines model_roots) <> newline)

-- `raise ValueError(text)`, on the way out of comfyctl/paths.py
abbrev pub checked : {A : Type 0} → Checked A → Action A
checked (valid a) = pure a
checked (value_error text) = raise_value_error text

unfoldable pub instance_paths_of : String → String → Action InstancePaths
unfolding instance_paths
instance_paths_of data_root slug env m = checked (instance_paths env.paths data_root slug) env m

unfoldable pub comfy_paths_of : String → Action ComfyPaths
unfolding comfy_paths
comfy_paths_of data_root env m = checked (comfy_paths env.paths data_root) env m

-- The loop of `ensure_data_dirs`
unfoldable pub make_data_dirs : ComfyPaths → Action ⊤
make_data_dirs paths = do
  mkdir paths.installs_dir
  mkdir paths.default_models_root
  mkdir paths.default_input_root
  mkdir paths.default_output_root
  mkdir paths.download_cache_dir

unfoldable pub ensure_data_dirs : String → Action ComfyPaths
unfolding comfy_paths_of make_data_dirs
ensure_data_dirs data_root = do paths ← comfy_paths_of data_root; make_data_dirs paths; pure paths

-- The directories that `ensure_instance_dirs` makes, once the paths are there
unfoldable pub make_instance_dirs : InstancePaths → Action ⊤
make_instance_dirs paths = do
  mkdir paths.root
  mkdir paths.run_dir
  mkdir paths.logs_dir
  mkdir paths.staging_dir
  mkdir paths.previous_dir

unfoldable pub ensure_instance_dirs : String → String → Action InstancePaths
unfolding instance_paths_of make_instance_dirs
ensure_instance_dirs data_root slug = do
  paths ← instance_paths_of data_root slug
  make_instance_dirs paths
  pure paths
