-- ===== src/Comfyctl/Contract/Prepare.antt =====
-- The ends of what `command_instance_install` of comfyctl/cli.py does in the staging directory.
use comfy_shell_v.Prelude.{
  String, Bool, true, not, ◌≡◌, refl, Option, none, some, List, [], ◌∷◌, ◌==◌, if◌then◌else◌,
}
use comfy_shell_v.Prelude.Json.{Json, null, object}
use comfy_shell_v.Errors.Codes.{is_registered}
use comfy_shell_v.Comfyctl.Catalog.{Catalog, torch_profile_backend}
use comfy_shell_v.Comfyctl.Requirements.{torch_requirements}
use comfy_shell_v.Comfyctl.Paths.{AbsolutePath, InstancePaths, child}
use comfy_shell_v.Comfyctl.Machine.{
  Completed, CommandFailure, Action, pure, raise_if, asks, path_exists, read_text, mkdir_new,
  rmtree, ◌>>=◌, ◌>>◌,
}
use comfy_shell_v.Comfyctl.Tools.{run_command, succeeded, path_text}
use comfy_shell_v.Comfyctl.Install.Prepare.{
  InstallArgs, external, clone_fully, clone_checkout, checkout_commit, versions_in,
  installed_torch_versions, or_key_error, backend_or_raise, write_requirements_without_torch,
  install_torch, install_packages, prepare,
}
use comfy_shell_v.Comfyctl.Contract.{Quiet, is_known, bind-Quiet}
use comfy_shell_v.Comfyctl.Contract.Leaves.{
  pure-Quiet, crash-Quiet, gets-Quiet, asks-Quiet, raise-Quiet, raise_if-Quiet, if-Quiet,
  read_text-Quiet, run_command-Quiet, change-Quiet, mkdir_new-Quiet, rmtree-Quiet,
}

-- A command whose failure is raised, and what follows
command-Quiet :
    {A : Type 0} (command : List String) (cwd : Option AbsolutePath) (f : Completed → Action A)
    → ((result : Completed) → Quiet (f result))
    → Quiet (run_command command cwd >>= f)
command-Quiet command cwd f h =
    bind-Quiet (run_command command cwd) f (run_command-Quiet command cwd) h

pub checked-Quiet :
    {A : Type 0} (fails : Bool) (e : CommandFailure) (rest : Action A)
    → is_known e ≡ true
    → Quiet rest
    → Quiet (raise_if fails e >> rest)
checked-Quiet fails e rest known h =
    bind-Quiet (raise_if fails e) _ (raise_if-Quiet fails e known) λ _. h

clone_fully-Quiet :
    (repo ref : String) (dir log : AbsolutePath) → Quiet (clone_fully repo ref dir log)
unfolding is_registered
clone_fully-Quiet repo ref dir log = bind-Quiet (rmtree dir) _ (rmtree-Quiet dir) λ _.
    command-Quiet ("git" ∷ "clone" ∷ repo ∷ path_text dir ∷ []) none _ λ clone.
      checked-Quiet (not (succeeded clone))
        (external "GIT_FAILED" "git clone failed" "git" log clone.stderr) _ refl
        (command-Quiet ("git" ∷ "checkout" ∷ ref ∷ []) (some dir) _ λ checkout.
          raise_if-Quiet (not (succeeded checkout))
            (external "GIT_FAILED" "git checkout failed" "git" log checkout.stderr) refl)

clone_checkout-Quiet :
    (repo ref : String) (dir log : AbsolutePath) → Quiet (clone_checkout repo ref dir log)
unfolding clone_checkout
clone_checkout-Quiet repo ref dir log = command-Quiet _ none _ λ clone.
    if-Quiet (succeeded clone) (pure tt) (clone_fully repo ref dir log) (pure-Quiet tt)
      (clone_fully-Quiet repo ref dir log)

checkout_commit-Quiet : (dir log : AbsolutePath) → Quiet (checkout_commit dir log)
unfolding checkout_commit is_registered
checkout_commit-Quiet dir log =
    command-Quiet _ (some dir) _ λ result. checked-Quiet _ _ _ refl (pure-Quiet _)

versions_in-Quiet : (result : Completed) (value : Option Json) → Quiet (versions_in result value)
unfolding is_registered
versions_in-Quiet result none = raise-Quiet _ refl
versions_in-Quiet result (some (object value)) = pure-Quiet _
versions_in-Quiet result (some _) = crash-Quiet

installed_torch_versions-Quiet : (python : AbsolutePath) → Quiet (installed_torch_versions python)
unfolding installed_torch_versions is_registered
installed_torch_versions-Quiet python = command-Quiet _ none _ λ result. checked-Quiet _ _ _ refl (
    bind-Quiet (asks (λ env. env.loads result.stdout)) _ (asks-Quiet _)
      λ value. versions_in-Quiet result value)

or_key_error-Quiet {ℓ} : {A : Type ℓ} (o : Option A) → Quiet (or_key_error o)
or_key_error-Quiet none = crash-Quiet
or_key_error-Quiet (some a) = pure-Quiet a

backend_or_raise-Quiet : (name : String) (o : Option String) → Quiet (backend_or_raise name o)
unfolding is_registered
backend_or_raise-Quiet name none = raise-Quiet _ refl
backend_or_raise-Quiet name (some backend) = pure-Quiet backend

write_requirements-Quiet :
    (source target : AbsolutePath) → Quiet (write_requirements_without_torch source target)
unfolding write_requirements_without_torch
write_requirements-Quiet source target =
    bind-Quiet (read_text source) _ (read_text-Quiet source) λ text. change-Quiet _ _

module _ (catalog : Catalog) (args : InstallArgs) where
  install_torch-Quiet :
      (checkout requirements python log : AbsolutePath)
      → Quiet (install_torch catalog args checkout requirements python log)
  unfolding install_torch is_registered
  install_torch-Quiet checkout requirements python log =
      bind-Quiet (or_key_error (torch_profile_backend catalog args.torch_profile)) _
        (or_key_error-Quiet _)
        λ backend.
          bind-Quiet (backend_or_raise args.torch_profile backend) _
            (backend_or_raise-Quiet _ backend)
            λ torch_backend.
              bind-Quiet (read_text requirements) _ (read_text-Quiet requirements) λ text.
                bind-Quiet
                  (or_key_error (torch_requirements catalog text (some args.torch_profile))) _
                  (or_key_error-Quiet _)
                  λ packages. command-Quiet _ none _ λ result. checked-Quiet _ _ _ refl (
                    bind-Quiet (write_requirements_without_torch requirements _) _
                      (write_requirements-Quiet requirements _) λ _. pure-Quiet _)

  install_packages-Quiet :
      (checkout python log : AbsolutePath)
      → Quiet (install_packages catalog args checkout python log)
  unfolding install_packages is_registered
  install_packages-Quiet checkout python log =
      bind-Quiet
        (if args.torch_profile == "requirements"
          then pure (child checkout "requirements.txt")
          else install_torch catalog args checkout (child checkout "requirements.txt") python log)
        _
        (if-Quiet (args.torch_profile == "requirements") _ _ (pure-Quiet _)
          (install_torch-Quiet checkout _ python log))
        λ file.
          command-Quiet _ none _
            λ result. checked-Quiet _ _ _ refl (installed_torch_versions-Quiet python)

  pub prepare-Quiet :
      (paths : InstancePaths) (staging_root : AbsolutePath)
      → Quiet (prepare catalog args paths staging_root)
  unfolding prepare is_registered
  prepare-Quiet paths staging_root =
      bind-Quiet (mkdir_new staging_root) _ (mkdir_new-Quiet staging_root) λ _.
        bind-Quiet (clone_checkout args.repo args.ref checkout paths.log_file) _
          (clone_checkout-Quiet _ _ checkout paths.log_file)
          λ _.
            bind-Quiet (checkout_commit checkout paths.log_file) _
              (checkout_commit-Quiet checkout paths.log_file)
              λ commit. command-Quiet _ none _ λ venv. checked-Quiet _ _ _ refl (
                bind-Quiet (path_exists (child checkout "requirements.txt")) _ (gets-Quiet _)
                  λ has_requirements.
                    bind-Quiet
                      (if has_requirements
                        then install_packages catalog args checkout python paths.log_file
                        else pure null)
                      _
                      (if-Quiet has_requirements _ _
                        (install_packages-Quiet checkout python paths.log_file) (pure-Quiet null))
                      λ versions.
                        pure-Quiet (record { resolved_commit = commit; torch_versions = versions }))
    where
      checkout : AbsolutePath
      checkout = child staging_root "ComfyUI"

      python : AbsolutePath
      python = child (child (child staging_root ".venv") "bin") "python"
