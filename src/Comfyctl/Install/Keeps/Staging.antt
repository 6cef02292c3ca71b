-- ===== src/Comfyctl/Install/Keeps/Staging.antt =====
-- What the preparation of `command_instance_install` of comfyctl/cli.py leaves alone.
use mathlib.Core.List.{append_assoc}
use comfy_shell_v.Prelude.{
  String, not, ◌||◌, refl, ◌∙◌, ap, Option, none, some, [], ◌∷◌, ◌==◌, if◌then◌else◌,
}
use comfy_shell_v.Prelude.Json.{Json, null, object}
use comfy_shell_v.Prelude.Text.{is_blank}
use comfy_shell_v.Comfyctl.Catalog.{Catalog, torch_profile_backend}
use comfy_shell_v.Comfyctl.Paths.{AbsolutePath, InstancePaths, child}
use comfy_shell_v.Comfyctl.Requirements.{torch_requirements, requirements_without_torch}
use comfy_shell_v.Comfyctl.Machine.{
  Platform, Completed, pure, asks, same_path, path_exists, read_text, mkdir_new, rmtree,
}
use comfy_shell_v.Comfyctl.Tools.{succeeded, path_text}
use comfy_shell_v.Comfyctl.Install.Prepare.{
  InstallArgs, external, clone_fully, clone_checkout, checkout_commit, versions_in,
  installed_torch_versions, or_key_error, backend_or_raise, write_requirements_without_torch,
  install_torch, install_packages, prepare,
}
use comfy_shell_v.Comfyctl.Install.Keeps.{
  Place, Confined, Keeps, bind-Keeps, raise_if-Keeps, read_text-Keeps, mkdir_new-Keeps,
  rmtree-Keeps, write_text-Keeps, if-Keeps, pure-Keeps, or_key_error-Keeps, spot, then_Keeps,
  checked_Keeps, not_below, not_same, not_above_staging,
}

module _ (root : AbsolutePath) (place : Place) (rest : AbsolutePath) (env : Platform)
    (confined : Confined env root) (s : String) (paths : InstancePaths) where
  abbrev log : AbsolutePath
  log = paths.log_file

  abbrev q : AbsolutePath
  q = spot root place rest env

  abbrev staging : AbsolutePath
  staging = child (child root ".staging") s

  abbrev checkout : AbsolutePath
  checkout = child staging "ComfyUI"

  clone_fully-Keeps : (repo ref : String) → Keeps env q (clone_fully repo ref checkout log)
  clone_fully-Keeps repo ref =
      bind-Keeps env q (rmtree checkout) _
        (rmtree-Keeps env q checkout (not_below root place rest env confined s ("ComfyUI" ∷ [])))
        λ _.
          then_Keeps root place rest env confined ("git" ∷ "clone" ∷ repo ∷ path_text checkout ∷ [])
            none _
            λ clone.
              checked_Keeps root place rest env confined (not (succeeded clone))
                (external "GIT_FAILED" "git clone failed" "git" log clone.stderr) _
                (then_Keeps root place rest env confined ("git" ∷ "checkout" ∷ ref ∷ [])
                  (some checkout) _
                  λ out.
                    raise_if-Keeps env q (not (succeeded out))
                      (external "GIT_FAILED" "git checkout failed" "git" log out.stderr))

  clone_checkout-Keeps : (repo ref : String) → Keeps env q (clone_checkout repo ref checkout log)
  unfolding clone_checkout
  clone_checkout-Keeps repo ref = then_Keeps root place rest env confined _ none _ λ clone.
      if-Keeps env q (succeeded clone) (pure tt) (clone_fully repo ref checkout log)
        (record { at = λ m. refl }) (clone_fully-Keeps repo ref)

  checkout_commit-Keeps : Keeps env q (checkout_commit checkout log)
  unfolding checkout_commit
  checkout_commit-Keeps = then_Keeps root place rest env confined _ (some checkout) _ λ result.
      checked_Keeps root place rest env confined (not (succeeded result) || is_blank result.stdout)
        (external "GIT_FAILED" "git rev-parse HEAD failed" "git" log result.stderr) _
        (pure-Keeps env q _)

  versions_in-Keeps :
      (result : Completed) (value : Option Json) → Keeps env q (versions_in result value)
  versions_in-Keeps result none = record { at = λ m. refl }
  versions_in-Keeps result (some (object value)) = record { at = λ m. refl }
  versions_in-Keeps result (some _) = record { at = λ m. refl }

  torch_versions-Keeps : (python : AbsolutePath) → Keeps env q (installed_torch_versions python)
  unfolding installed_torch_versions
  torch_versions-Keeps python = then_Keeps root place rest env confined _ none _ λ result.
      checked_Keeps root place rest env confined _ _ _ (
        bind-Keeps env q (asks (λ env. env.loads result.stdout)) _ (record { at = λ m. refl })
          λ value. versions_in-Keeps result value)

  backend-Keeps : (name : String) (o : Option String) → Keeps env q (backend_or_raise name o)
  backend-Keeps name none = record { at = λ m. refl }
  backend-Keeps name (some backend) = record { at = λ m. refl }

  abbrev filtered : AbsolutePath
  filtered = child checkout "requirements-without-torch.txt"

  write_requirements-Keeps :
      (source : AbsolutePath) → Keeps env q (write_requirements_without_torch source filtered)
  unfolding write_requirements_without_torch
  write_requirements-Keeps source =
      bind-Keeps env q (read_text source) _ (read_text-Keeps env q source) λ text.
        write_text-Keeps env q filtered (requirements_without_torch text) (
          ap (λ a. same_path a q)
            (append_assoc staging ("ComfyUI" ∷ []) ("requirements-without-torch.txt" ∷ []))
          ∙ not_same root place rest env confined s
              ("ComfyUI" ∷ "requirements-without-torch.txt" ∷ []))

  module _ (catalog : Catalog) (args : InstallArgs) where
    install_torch-Keeps :
        (requirements python : AbsolutePath)
        → Keeps env q (install_torch catalog args checkout requirements python log)
    unfolding install_torch
    install_torch-Keeps requirements python =
        bind-Keeps env q (or_key_error (torch_profile_backend catalog args.torch_profile)) _
          (or_key_error-Keeps env q _)
          λ backend.
            bind-Keeps env q (backend_or_raise args.torch_profile backend) _
              (backend-Keeps _ backend)
              λ torch_backend.
                bind-Keeps env q (read_text requirements) _ (read_text-Keeps env q requirements)
                  λ text.
                    bind-Keeps env q
                      (or_key_error (torch_requirements catalog text (some args.torch_profile))) _
                      (or_key_error-Keeps env q _)
                      λ packages. then_Keeps root place rest env confined _ none _ λ result.
                        checked_Keeps root place rest env confined _ _ _ (
                          bind-Keeps env q (write_requirements_without_torch requirements filtered)
                            _ (write_requirements-Keeps requirements)
                            λ _. pure-Keeps env q filtered)

    install_packages-Keeps :
        (python : AbsolutePath) → Keeps env q (install_packages catalog args checkout python log)
    unfolding install_packages
    install_packages-Keeps python =
        bind-Keeps env q
          (if args.torch_profile == "requirements"
            then pure (child checkout "requirements.txt")
            else install_torch catalog args checkout (child checkout "requirements.txt") python log)
          _
          (if-Keeps env q (args.torch_profile == "requirements") _ _ (record { at = λ m. refl })
            (install_torch-Keeps (child checkout "requirements.txt") python))
          λ file.
            then_Keeps root place rest env confined _ none _ λ result.
              checked_Keeps root place rest env confined _ _ _ (torch_versions-Keeps python)

  abbrev python : AbsolutePath
  python = child (child (child staging ".venv") "bin") "python"

  pub prepare-Keeps :
      (catalog : Catalog) (args : InstallArgs) → Keeps env q (prepare catalog args paths staging)
  unfolding prepare
  prepare-Keeps catalog args =
      bind-Keeps env q (mkdir_new staging) _
        (mkdir_new-Keeps env q staging (not_above_staging root place rest env confined s))
        λ _.
          bind-Keeps env q (clone_checkout args.repo args.ref checkout log) _
            (clone_checkout-Keeps args.repo args.ref)
            λ _. bind-Keeps env q (checkout_commit checkout log) _ checkout_commit-Keeps λ commit.
              then_Keeps root place rest env confined _ none _ λ venv.
                checked_Keeps root place rest env confined _ _ _ (
                  bind-Keeps env q (path_exists (child checkout "requirements.txt")) _
                    (record { at = λ m. refl })
                    λ has_requirements.
                      bind-Keeps env q
                        (if has_requirements
                          then install_packages catalog args checkout python log
                          else pure null)
                        _
                        (if-Keeps env q has_requirements _ _
                          (install_packages-Keeps catalog args python) (record { at = λ m. refl }))
                        λ versions.
                          pure-Keeps env q
                            (record { resolved_commit = commit; torch_versions = versions }))
