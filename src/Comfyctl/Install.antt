-- ===== src/Comfyctl/Install.antt =====
-- `command_instance_install` of comfyctl/cli.py.
pub mod Prepare
pub mod Promote
pub mod Keeps
pub mod Outcome
use Prim.Native.String.{◌++◌ as ◌<>◌}
use comfy_shell_v.Prelude.{
  String, Bool, true, false, not, Option, none, some, List, [], ◌∷◌, elem, ⊤, ℕ,
}
use comfy_shell_v.Prelude.Json.{Json, Fields, str, null, object, field, end}
use comfy_shell_v.Prelude.Decimal.{show_ℕ}
use comfy_shell_v.Prelude.Lines.{join}
use comfy_shell_v.Comfyctl.Catalog.{Catalog, supported_torch_profiles}
use comfy_shell_v.Comfyctl.Paths.{AbsolutePath, InstancePaths, child}
use comfy_shell_v.Comfyctl.Machine.{
  Action, pure, raise, raise_if, ask, finally_do, path_exists, write_text, rmtree, unlink_if_there,
  success, ◌>>=◌, ◌>>◌,
}
use comfy_shell_v.Comfyctl.Tools.{
  command_failure, exit_usage, exit_precondition, path_text, require_tool, unique_name,
  write_manifest, ensure_instance_dirs,
}
use comfy_shell_v.Comfyctl.Install.Prepare.{InstallArgs, Prepared, prepare}
use comfy_shell_v.Comfyctl.Install.Promote.{promote_install}

-- The object of the manifest
abbrev pub manifest_of : InstallArgs → Prepared → String → Json
manifest_of args prepared created_at = object (
    field "instance_id" (str args.id) (
      field "instance_slug" (str args.slug) (
        field "comfy_ref" (str args.ref) (
          field "resolved_commit" (str prepared.resolved_commit) (
            field "python_version" (str args.python) (
              field "torch_profile" (str args.torch_profile) (
                field "torch_versions" prepared.torch_versions
                  (field "created_at" (str created_at) end))))))))

abbrev pub install_payload : InstallArgs → InstancePaths → Prepared → Fields
install_payload args paths prepared = field "instance_id" (str args.id) (
    field "instance_slug" (str args.slug) (
      field "install_root" (str (path_text paths.root)) (
        field "resolved_commit" (str prepared.resolved_commit) (
          field "manifest_path" (str (path_text paths.manifest))
            (field "log_path" (str (path_text paths.log_file)) end)))))

-- The end of the `try` block, once everything has been prepared in the staging directory
unfoldable pub publish : InstallArgs → InstancePaths → AbsolutePath → Prepared → Action ℕ
unfolding promote_install write_manifest path_text
publish args paths staging_root prepared = do
  promote_install paths (child staging_root "ComfyUI") (child staging_root ".venv")
  created_at ← ask (λ env t. env.utc_now t)
  write_manifest paths.manifest (manifest_of args prepared created_at)
  success (install_payload args paths prepared)

-- The `try` block behind the name of the staging directory
unfoldable pub staged : Catalog → InstallArgs → InstancePaths → AbsolutePath → Action ℕ
unfolding publish
staged catalog args paths staging_root = do
  prepared ← prepare catalog args paths staging_root
  publish args paths staging_root prepared

-- The `finally` block
unfoldable pub clean_up : InstancePaths → AbsolutePath → Action ⊤
clean_up paths staging_root = do rmtree staging_root; unlink_if_there paths.lock

-- What is done under the lock: the name of the staging directory cannot fail.
unfoldable pub under_lock : Catalog → InstallArgs → InstancePaths → Action ℕ
unfolding staged clean_up
under_lock catalog args paths = do
  name ← unique_name "install"
  (let staging_root = child paths.staging_dir name in
      finally_do (staged catalog args paths staging_root) (clean_up paths staging_root))

abbrev pub unsupported_profile : String → String
unsupported_profile supported = "torch_profile must be one of: " <> supported

abbrev pub locked_message : InstancePaths → String
locked_message paths = "instance lock exists: " <> path_text paths.lock

-- The checks before the lock is written. `sorted` is Python's, of the supported names.
unfoldable pub check_install :
    (List String → List String) → Catalog → InstallArgs → InstancePaths → Action ⊤
unfolding require_tool supported_torch_profiles join path_text
check_install sorted catalog args paths = do
  require_tool "git" "git"
  require_tool "uv" "python"
  (let supported = supported_torch_profiles catalog in
      raise_if (not (elem args.torch_profile supported)) (
        command_failure exit_usage "REQUEST_INVALID"
          (unsupported_profile (join ", " (sorted supported))) "config"))
  is_locked ← path_exists paths.lock
  raise_if is_locked
      (command_failure exit_precondition "INSTANCE_LOCKED" (locked_message paths) "filesystem")

-- What follows the making of the directories
unfoldable pub install_at :
    (List String → List String) → Catalog → InstallArgs → InstancePaths → Action ℕ
unfolding check_install under_lock show_ℕ
install_at sorted catalog args paths = do
  check_install sorted catalog args paths
  pid ← ask (λ env t. env.getpid)
  write_text paths.lock (show_ℕ pid)
  under_lock catalog args paths

unfoldable pub command_instance_install :
    (List String → List String) → Catalog → InstallArgs → Action ℕ
unfolding install_at ensure_instance_dirs
command_instance_install sorted catalog args = do
  paths ← ensure_instance_dirs args.data_root args.slug
  install_at sorted catalog args paths
