-- ===== src/Comfyctl/Install/Prepare.antt =====
-- The part of `command_instance_install` that fills the staging directory: the checkout, the virtual
-- environment and its packages.
use Prim.Native.String.{◌++◌ as ◌<>◌}
use comfy_shell_v.Prelude.{
  String, not, ◌||◌, Option, none, some, List, [], ◌∷◌, ◌++◌, ◌==◌, if◌then◌else◌, ⊤,
}
use comfy_shell_v.Prelude.Json.{Json, null, object, field, end, lookup}
use comfy_shell_v.Prelude.Lines.{strip}
use comfy_shell_v.Prelude.Text.{is_blank}
use comfy_shell_v.Comfyctl.Catalog.{Catalog, torch_profile_backend}
use comfy_shell_v.Comfyctl.Paths.{AbsolutePath, InstancePaths, child}
use comfy_shell_v.Comfyctl.Machine.{
  Completed, CommandFailure, Action, pure, raise, raise_crash, raise_if, asks, path_exists,
  read_text, write_text, mkdir_new, rmtree, ◌>>=◌, ◌>>◌,
}
use comfy_shell_v.Comfyctl.Requirements.{
  requirements_without_torch, torch_requirements, index_url_args, package_source_args,
}
use comfy_shell_v.Comfyctl.Tools.{
  exit_external, exit_usage, command_failure, path_text, run_command, succeeded, stderr_tail,
}

-- The arguments of `instance install`
pub record InstallArgs : Type 0 where
  pub id : String
  pub slug : String
  pub data_root : String
  pub repo : String
  pub ref : String
  pub python : String
  pub torch_profile : String
  pub python_index_url : String
  pub torch_index_url : String
  pub torch_find_links_url : String

-- What the `try` block has found out when it promotes the staging directory
pub record Prepared : Type 0 where
  pub resolved_commit : String
  pub torch_versions : Json

-- CommandFailure(EXIT_EXTERNAL, ...) with the log file and the end of what the command wrote
abbrev pub external : String → String → String → AbsolutePath → String → CommandFailure
external error_code message layer log_file written =
    record (command_failure exit_external error_code message layer) {
      log_path = some (path_text log_file);
      stderr_tail = some (stderr_tail written);
    }

-- `git clone` in full, and `git checkout`, where the shallow clone has failed
abbrev pub clone_fully : String → String → AbsolutePath → AbsolutePath → Action ⊤
clone_fully repo ref checkout_dir log_file = do
  rmtree checkout_dir
  clone ← run_command ("git" ∷ "clone" ∷ repo ∷ path_text checkout_dir ∷ []) none
  raise_if (not (succeeded clone))
      (external "GIT_FAILED" "git clone failed" "git" log_file clone.stderr)
  checkout ← run_command ("git" ∷ "checkout" ∷ ref ∷ []) (some checkout_dir)
  raise_if (not (succeeded checkout))
      (external "GIT_FAILED" "git checkout failed" "git" log_file checkout.stderr)

unfoldable pub clone_checkout : String → String → AbsolutePath → AbsolutePath → Action ⊤
unfolding path_text run_command stderr_tail
clone_checkout repo ref checkout_dir log_file = do
  clone ←
      run_command
        ("git"
          ∷ "clone"
          ∷ "--depth"
          ∷ "1"
          ∷ "--single-branch"
          ∷ "--filter=blob:none"
          ∷ "--branch"
          ∷ ref
          ∷ repo
          ∷ path_text checkout_dir
          ∷ [])
        none
  (if succeeded clone then pure tt else clone_fully repo ref checkout_dir log_file)

unfoldable pub checkout_commit : AbsolutePath → AbsolutePath → Action String
unfolding path_text run_command stderr_tail is_blank strip
checkout_commit checkout_dir log_file = do
  result ← run_command ("git" ∷ "rev-parse" ∷ "HEAD" ∷ []) (some checkout_dir)
  raise_if (not (succeeded result) || is_blank result.stdout)
      (external "GIT_FAILED" "git rev-parse HEAD failed" "git" log_file result.stderr)
  pure (strip result.stdout)

-- The text of the program that `installed_torch_versions` runs
abbrev pub version_script : String
version_script =
    "import json\nimport torch\nimport torchvision\nimport torchaudio\nprint(json.dumps({'torch': torch.__version__, 'torch_cuda': torch.version.cuda, 'torchvision': torchvision.__version__, 'torchaudio': torchaudio.__version__}, sort_keys=True))\n"

abbrev pub python_failure : String → String → CommandFailure
python_failure message written =
    record (command_failure exit_external "PYTHON_DEPENDENCY_FAILED" message "python") {
      stderr_tail = some (stderr_tail written);
    }

-- What `json.loads` gave; `value.get` raises AttributeError where it is no dict.
abbrev pub versions_in : Completed → Option Json → Action Json
versions_in result none =
    raise
      (python_failure "torch import check returned invalid JSON" (result.stdout <> result.stderr))
versions_in result (some (object value)) = pure (
    object (
      field "torch" (lookup value "torch") (
        field "torch_cuda" (lookup value "torch_cuda") (
          field "torchvision" (lookup value "torchvision")
            (field "torchaudio" (lookup value "torchaudio") end)))))
versions_in result (some _) = raise_crash

unfoldable pub installed_torch_versions : AbsolutePath → Action Json
unfolding path_text run_command stderr_tail
installed_torch_versions python = do
  result ← run_command (path_text python ∷ "-c" ∷ version_script ∷ []) none
  raise_if (not (succeeded result))
      (python_failure "torch import check failed after install" result.stderr)
  value ← asks (λ env. env.loads result.stdout)
  versions_in result value

-- A dict's lookup that raises KeyError
abbrev pub or_key_error {ℓ} : {A : Type ℓ} → Option A → Action A
or_key_error none = raise_crash
or_key_error (some a) = pure a

abbrev pub backend_or_raise : String → Option String → Action String
backend_or_raise torch_profile none = raise (
    command_failure exit_usage "REQUEST_INVALID"
      ("torch_profile has no torch backend: " <> torch_profile) "config")
backend_or_raise torch_profile (some backend) = pure backend

abbrev pub backend_args : List String → String → List String
backend_args [] backend = "--torch-backend" ∷ backend ∷ []
backend_args (_ ∷ _) backend = []

abbrev pub pip_install : AbsolutePath → List String → List String
pip_install python rest = "uv" ∷ "pip" ∷ "install" ∷ "--python" ∷ path_text python ∷ rest

-- `write_requirements_without_torch`
unfoldable pub write_requirements_without_torch : AbsolutePath → AbsolutePath → Action ⊤
unfolding requirements_without_torch
write_requirements_without_torch source target = do
  text ← read_text source
  write_text target (requirements_without_torch text)

-- The packages of the profile, before the others; what is left to install is in the file returned.
unfoldable pub install_torch :
    Catalog
    → InstallArgs
    → AbsolutePath
    → AbsolutePath
    → AbsolutePath
    → AbsolutePath
    → Action AbsolutePath
unfolding torch_profile_backend torch_requirements package_source_args path_text run_command
    stderr_tail write_requirements_without_torch
install_torch catalog args checkout requirements venv_python log_file = do
  backend ← or_key_error (torch_profile_backend catalog args.torch_profile)
  torch_backend ← backend_or_raise args.torch_profile backend
  text ← read_text requirements
  packages ← or_key_error (torch_requirements catalog text (some args.torch_profile))
  (let source_args = package_source_args args.torch_index_url args.torch_find_links_url in
      do
        result ←
            run_command
              (pip_install venv_python
                (source_args ++ backend_args source_args torch_backend ++ packages))
              none
        raise_if (not (succeeded result)) (
            external "PYTHON_DEPENDENCY_FAILED"
              ("uv pip install torch_profile=" <> args.torch_profile <> " failed") "python" log_file
              result.stderr)
        write_requirements_without_torch requirements
            (child checkout "requirements-without-torch.txt")
        pure (child checkout "requirements-without-torch.txt"))

-- The branch for a checkout that has a requirements.txt
unfoldable pub install_packages :
    Catalog → InstallArgs → AbsolutePath → AbsolutePath → AbsolutePath → Action Json
unfolding install_torch index_url_args path_text run_command stderr_tail installed_torch_versions
install_packages catalog args checkout venv_python log_file = do
  install_requirements ←
      (if args.torch_profile == "requirements"
        then pure (child checkout "requirements.txt")
        else install_torch catalog args checkout (child checkout "requirements.txt") venv_python
            log_file)
  result ←
      run_command
        (pip_install venv_python
          (index_url_args args.python_index_url ++ "-r" ∷ path_text install_requirements ∷ []))
        none
  raise_if (not (succeeded result)) (
      external "PYTHON_DEPENDENCY_FAILED" "uv pip install requirements failed" "python" log_file
        result.stderr)
  installed_torch_versions venv_python

unfoldable pub prepare : Catalog → InstallArgs → InstancePaths → AbsolutePath → Action Prepared
unfolding clone_checkout checkout_commit install_packages path_text run_command stderr_tail
prepare catalog args paths staging_root = do
  mkdir_new staging_root
  clone_checkout args.repo args.ref (child staging_root "ComfyUI") paths.log_file
  resolved_commit ← checkout_commit (child staging_root "ComfyUI") paths.log_file
  venv ←
      run_command
        ("uv" ∷ "venv" ∷ "--python" ∷ args.python ∷ path_text (child staging_root ".venv") ∷ [])
        none
  raise_if (not (succeeded venv))
      (external "UV_FAILED" "uv venv failed" "python" paths.log_file venv.stderr)
  has_requirements ← path_exists (child (child staging_root "ComfyUI") "requirements.txt")
  torch_versions ←
      (if has_requirements
        then install_packages catalog args (child staging_root "ComfyUI")
            (child (child (child staging_root ".venv") "bin") "python") paths.log_file
        else pure null)
  pure (record { resolved_commit = resolved_commit; torch_versions = torch_versions })
