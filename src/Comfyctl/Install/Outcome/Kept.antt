-- ===== src/Comfyctl/Install/Outcome/Kept.antt =====
-- What an instance's directory holds when `command_instance_install` of comfyctl/cli.py has ended with a
-- failure.
use mathlib.Core.List.{append-nil}
use comfy_shell_v.Prelude.{
  ℕ, String, Bool, true, false, ◌≡◌, ◌≢◌, refl, ◌∙◌, sym, ap, arith, List, [], ◌∷◌, ◌++◌, ◌==◌,
}
use comfy_shell_v.Prelude.Json.{Fields}
use comfy_shell_v.Prelude.Decimal.{show_ℕ}
use comfy_shell_v.Comfyctl.Catalog.{Catalog}
use comfy_shell_v.Comfyctl.Paths.{
  AbsolutePath, InstancePaths, valid, layout, child, is_at_or_above, instance_paths,
}
use comfy_shell_v.Comfyctl.Machine.{
  Platform, Machine, CommandFailure, Result, ok, failed, value_error, crash, exhausted, continue,
  pure, ask, write_text, rmtree, ◌>>◌,
}
use comfy_shell_v.Comfyctl.Machine.Under.{is_at_or_above-under, same_path-under}
use comfy_shell_v.Comfyctl.Tools.{
  unique_name, require_tool, command_failure, exit_usage, ensure_instance_dirs, make_instance_dirs,
}
use comfy_shell_v.Comfyctl.Install.Prepare.{InstallArgs, prepare}
use comfy_shell_v.Comfyctl.Install.{
  publish, staged, clean_up, under_lock, check_install, install_at, command_instance_install,
}
use comfy_shell_v.Comfyctl.Install.Keeps.{
  Place, checkout_place, venv_place, manifest_place, lock_place, name_of, Confined, Keeps,
  bind-Keeps, rmtree-Keeps, unlink-Keeps, write_text-Keeps, pure-Keeps, spot,
  make_instance_dirs-Keeps, not_below,
}
use comfy_shell_v.Comfyctl.Install.Keeps.Staging.{prepare-Keeps}
use comfy_shell_v.Comfyctl.Contract.{Finished}
use comfy_shell_v.Comfyctl.Contract.Install.{install-Finishes}
use comfy_shell_v.Comfyctl.Main.{main, instance_install, handled, failure}
use comfy_shell_v.Comfyctl.Install.Outcome.{is_reported, Unfailing, publish-Unfailing}
use comfy_shell_v.Comfyctl.Install.Outcome.Failing.{
  FailureKeeps, Unfailing-FailureKeeps, bind-FailureKeeps, finally-FailureKeeps, known-FailureKeeps,
  made_returns, ensure_instance_dirs-valid,
}

clean_up-Unfailing :
    (paths : InstancePaths) (staging_root : AbsolutePath) → Unfailing (clean_up paths staging_root)
unfolding clean_up
clean_up-Unfailing paths staging_root = record { at = λ env m. ground arith }

-- The entries of an installation
abbrev pub is_installed : Place → Bool
is_installed lock_place = false
is_installed _ = true

lock_name : (place : Place) → is_installed place ≡ true → ("instance.lock" == name_of place) ≡ false
lock_name checkout_place h = refl
lock_name venv_place h = refl
lock_name manifest_place h = refl
lock_name lock_place h = cc

unique_name-Keeps : (env : Platform) (q : AbsolutePath) → Keeps env q (unique_name "install")
unfolding unique_name
unique_name-Keeps env q = record { at = λ m. refl }

module _ (root : AbsolutePath) (place : Place) (rest : AbsolutePath) (env : Platform)
    (confined : Confined env root) (is_part : is_installed place ≡ true) where
  abbrev q : AbsolutePath
  q = spot root place rest env

  clean_up-Keeps :
      (s : String) → Keeps env q (clean_up (layout root) (child (layout root).staging_dir s))
  unfolding clean_up
  clean_up-Keeps s =
      bind-Keeps env q (rmtree (child (layout root).staging_dir s)) _
        (rmtree-Keeps env q (child (layout root).staging_dir s) (
          ap (λ a. is_at_or_above a q) (sym (append-nil (child (layout root).staging_dir s)))
          ∙ not_below root place rest env confined s []))
        λ _. unlink-Keeps env q (layout root).lock (
          is_at_or_above-under root ("instance.lock" ∷ []) (name_of place ∷ rest)
          ∙ ground (arith, lock_name place is_part))

  staged-FailureKeeps :
      (catalog : Catalog) (args : InstallArgs) (s : String)
      → FailureKeeps env q (staged catalog args (layout root) (child (layout root).staging_dir s))
  unfolding staged
  staged-FailureKeeps catalog args s =
      let staging_root = child (layout root).staging_dir s in
      bind-FailureKeeps env q (prepare catalog args (layout root) staging_root) _
        (prepare-Keeps root place rest env confined s (layout root) catalog args)
        λ prepared.
          Unfailing-FailureKeeps env q (publish args (layout root) staging_root prepared)
            (publish-Unfailing args (layout root) staging_root prepared)

  under_lock-FailureKeeps :
      (catalog : Catalog) (args : InstallArgs)
      → FailureKeeps env q (under_lock catalog args (layout root))
  unfolding under_lock
  under_lock-FailureKeeps catalog args =
      bind-FailureKeeps env q (unique_name "install") _ (unique_name-Keeps env q) λ name.
        let staging_root = child (layout root).staging_dir name in
        finally-FailureKeeps env q (staged catalog args (layout root) staging_root)
          (clean_up (layout root) staging_root) (staged-FailureKeeps catalog args name)
          (clean_up-Keeps name) (clean_up-Unfailing (layout root) staging_root)

  check_install-Keeps :
      (sorted : List String → List String) (catalog : Catalog) (args : InstallArgs)
      → Keeps env q (check_install sorted catalog args (layout root))
  unfolding check_install require_tool
  check_install-Keeps sorted catalog args = record { at = λ m. ground arith }

  install_at-FailureKeeps :
      (sorted : List String → List String) (catalog : Catalog) (args : InstallArgs)
      → FailureKeeps env q (install_at sorted catalog args (layout root))
  unfolding install_at
  install_at-FailureKeeps sorted catalog args =
      bind-FailureKeeps env q (check_install sorted catalog args (layout root)) _
        (check_install-Keeps sorted catalog args)
        λ _.
          bind-FailureKeeps env q (ask (λ env t. env.getpid)) _ (record { at = λ m. refl })
            λ pid.
              bind-FailureKeeps env q (write_text (layout root).lock (show_ℕ pid)) _
                (write_text-Keeps env q (layout root).lock (show_ℕ pid) (
                  same_path-under root ("instance.lock" ∷ []) (name_of place ∷ rest)
                  ∙ ground (arith, lock_name place is_part)))
                λ _. under_lock-FailureKeeps catalog args

  -- The directories are made, and the rest is done with the paths that were found.
  command-FailureKeeps :
      (sorted : List String → List String) (catalog : Catalog) (args : InstallArgs) (m : Machine)
      → instance_paths env.paths args.data_root args.slug ≡ valid (layout root)
      → is_reported (command_instance_install sorted catalog args env m).0 ≡ true
      → (command_instance_install sorted catalog args env m).1.files q ≡ m.files q
  unfolding command_instance_install
  command-FailureKeeps sorted catalog args m found reported =
      let made = make_instance_dirs (layout root) >> pure (layout root) in
      let same : ensure_instance_dirs args.data_root args.slug env m ≡ made env m =
        ensure_instance_dirs-valid args.data_root args.slug (layout root) env m found in
      let after = λ (r : Result InstancePaths × Machine).
        continue r.0 (install_at sorted catalog args) env r.1 in
      ap (λ r. (after r).1.files q) same
      ∙ known-FailureKeeps env q made (layout root) (install_at sorted catalog args) m
          (bind-Keeps env q (make_instance_dirs (layout root)) _
            (make_instance_dirs-Keeps root place rest env) λ _. pure-Keeps env q (layout root))
          (λ a h. made_returns (make_instance_dirs (layout root)) (layout root) a env m h)
          (install_at-FailureKeeps sorted catalog args)
          (sym (ap (λ r. is_reported (after r).0) same) ∙ reported)

failure_files :
    (e : CommandFailure) (env : Platform) (m : Machine) → (failure e env m).1.files ≡ m.files
unfolding failure
failure_files e env m = refl

-- A run whose exit code is not 0 has ended with a failure that `main` reports.
reported_by :
    (r : Result ℕ) (env : Platform) (m : Machine) (before : List Fields) (n : ℕ)
    → Finished r before m.printed
    → (handled r env m).0 ≡ ok n
    → n ≢ 0
    → (is_reported r ≡ true) × ((handled r env m).1.files ≡ m.files)
unfolding handled
reported_by (ok k) env m before n (zero_code, _) h nonzero = absurd (nonzero (same h ∙ zero_code))
  where
    same : {j : ℕ} → ◌≡◌ {A = Result ℕ} (ok j) (ok n) → n ≡ j
    same e = cc
reported_by (failed e) env m before n f h nonzero = (refl, failure_files e env m)
reported_by (value_error text) env m before n f h nonzero =
    (refl, failure_files (command_failure exit_usage "REQUEST_INVALID" text "config") env m)
reported_by crash env m before n f h nonzero = cc
reported_by exhausted env m before n f h nonzero = cc

-- Where the commands that are run change nothing in the instance's directory outside .staging
-- and the paths of the instance are found, a run of install that exits with a code other than
-- 0 has left everything at and below ComfyUI, .venv and manifest.json of the instance as it
-- was.
pub install-failure_keeps :
    (sorted : List String → List String) (catalog : Catalog) (args : InstallArgs)
    (root : AbsolutePath) (place : Place) (rest : AbsolutePath) (env : Platform) (m : Machine)
    (n : ℕ)
    → Confined env root
    → is_installed place ≡ true
    → instance_paths env.paths args.data_root args.slug ≡ valid (layout root)
    → (main sorted catalog (instance_install args) env m).0 ≡ ok n
    → n ≢ 0
    → (main sorted catalog (instance_install args) env m).1.files (root ++ name_of place ∷ rest)
      ≡ m.files (root ++ name_of place ∷ rest)
unfolding main
install-failure_keeps sorted catalog args root place rest env m n confined is_part found ended
      nonzero =
    let (r, m') = command_instance_install sorted catalog args env m in
    let (reported, same) =
      reported_by r env m' m.printed n ((install-Finishes sorted catalog args).at env m) ended
        nonzero in
    ap (λ files. files (root ++ name_of place ∷ rest)) same
    ∙ command-FailureKeeps root place rest env confined is_part sorted catalog args m found reported
