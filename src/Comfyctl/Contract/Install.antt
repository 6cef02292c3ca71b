-- ===== src/Comfyctl/Contract/Install.antt =====
-- The ends of `command_instance_install` of comfyctl/cli.py.
use comfy_shell_v.Prelude.{ℕ, String, ◌≡◌, refl, sym, subst, ◌⊎◌, inl, inr, Bool-cases, List, ⊤}
use comfy_shell_v.Prelude.Json.{Fields}
use comfy_shell_v.Prelude.Decimal.{show_ℕ}
use comfy_shell_v.Errors.Codes.{is_registered}
use comfy_shell_v.Comfyctl.Catalog.{Catalog}
use comfy_shell_v.Comfyctl.Paths.{AbsolutePath, InstancePaths, child}
use comfy_shell_v.Comfyctl.Machine.{
  Platform, Machine, Result, ok, failed, value_error, crash, exhausted, Action, ask, finally_do,
  continue, unlink, path_exists, write_text, mkdir_new, rmtree, shutil_move,
}
use comfy_shell_v.Comfyctl.Tools.{
  command_failure, exit_precondition, require_tool, unique_name, write_manifest,
  ensure_instance_dirs,
}
use comfy_shell_v.Comfyctl.Install.Prepare.{InstallArgs, Prepared, prepare}
use comfy_shell_v.Comfyctl.Install.Promote.{move_if_there, move_away, promote_install}
use comfy_shell_v.Comfyctl.Install.{
  publish, staged, clean_up, under_lock, check_install, install_at, command_instance_install,
  manifest_of, install_payload, locked_message,
}
use comfy_shell_v.Comfyctl.Contract.{
  Quiet, Finishes, Finished, bind-Quiet, bind-Finishes, success-Finishes,
}
use comfy_shell_v.Comfyctl.Contract.Leaves.{
  pure-Quiet, gets-Quiet, ask-Quiet, raise_if-Quiet, if-Quiet, require_tool-Quiet,
  unique_name-Quiet, change-Quiet, mkdir_new-Quiet, shutil_move-Quiet, write_manifest-Quiet,
}
use comfy_shell_v.Comfyctl.Contract.Directories.{ensure_instance_dirs-Quiet}
use comfy_shell_v.Comfyctl.Contract.Prepare.{checked-Quiet, prepare-Quiet}

move_if_there-Quiet : (source target : AbsolutePath) → Quiet (move_if_there source target)
unfolding move_if_there
move_if_there-Quiet source target =
    bind-Quiet (path_exists source) _ (gets-Quiet _)
      λ is_there. if-Quiet is_there _ _ (shutil_move-Quiet source target) (pure-Quiet tt)

move_away-Quiet :
    (paths : InstancePaths) (previous_root : AbsolutePath) → Quiet (move_away paths previous_root)
unfolding move_away
move_away-Quiet paths previous_root =
    bind-Quiet (move_if_there paths.checkout (child previous_root "ComfyUI")) _
      (move_if_there-Quiet paths.checkout _)
      λ _.
        bind-Quiet (move_if_there paths.venv (child previous_root ".venv")) _
          (move_if_there-Quiet paths.venv _) λ _. move_if_there-Quiet paths.manifest _

promote_install-Quiet :
    (paths : InstancePaths) (checkout venv : AbsolutePath)
    → Quiet (promote_install paths checkout venv)
unfolding promote_install
promote_install-Quiet paths checkout venv =
    bind-Quiet (unique_name "install") _ (unique_name-Quiet "install") λ name.
      bind-Quiet (mkdir_new (child paths.previous_dir name)) _ (mkdir_new-Quiet _) λ _.
        bind-Quiet (move_away paths (child paths.previous_dir name)) _ (move_away-Quiet paths _)
          λ _.
            bind-Quiet (shutil_move checkout paths.checkout) _ (shutil_move-Quiet checkout _)
              λ _. shutil_move-Quiet venv paths.venv

publish-Finishes :
    (args : InstallArgs) (paths : InstancePaths) (staging_root : AbsolutePath) (prepared : Prepared)
    → Finishes (publish args paths staging_root prepared)
unfolding publish
publish-Finishes args paths staging_root prepared =
    bind-Finishes
      (promote_install paths (child staging_root "ComfyUI") (child staging_root ".venv")) _
      (promote_install-Quiet paths (child staging_root "ComfyUI") (child staging_root ".venv"))
      λ _. bind-Finishes (ask (λ env t. env.utc_now t)) _ (ask-Quiet _) λ created_at.
        bind-Finishes (write_manifest paths.manifest (manifest_of args prepared created_at)) _
          (write_manifest-Quiet paths.manifest _)
          λ _. success-Finishes (install_payload args paths prepared) refl

staged-Finishes :
    (catalog : Catalog) (args : InstallArgs) (paths : InstancePaths) (staging_root : AbsolutePath)
    → Finishes (staged catalog args paths staging_root)
unfolding staged
staged-Finishes catalog args paths staging_root =
    bind-Finishes (prepare catalog args paths staging_root) _
      (prepare-Quiet catalog args paths staging_root)
      λ prepared. publish-Finishes args paths staging_root prepared

-- The cleanup returns or crashes, and prints nothing.
clean_up_ends :
    (paths : InstancePaths) (staging_root : AbsolutePath) (env : Platform) (m : Machine)
    → let (c, m') = clean_up paths staging_root env m in
      ((c ≡ ok tt) ⊎ (c ≡ crash)) × (m'.printed ≡ m.printed)
unfolding clean_up
clean_up_ends paths staging_root env m =
    let m' = (rmtree staging_root env m).1 in
    elim (Bool-cases (env.refuses m'.tick m'.files (unlink paths.lock))) [
      | inl refused ↦ (inr (rw refused refl), rw refused refl)
      | inr done ↦ (inl (rw done refl), rw done refl)
    ]

crashed_after :
    (r : Result ℕ) (before after : List Fields)
    → Finished r before after
    → Finished crash before after
crashed_after (ok n) before after h = inr h.1
crashed_after (failed e) before after h = inl h.1
crashed_after (value_error text) before after h = inl h
crashed_after crash before after h = h
crashed_after exhausted before after h = elim h [ ]

after_cleanup :
    (r : Result ℕ) (before : List Fields) (c : Result ⊤) (env : Platform) (m m' : Machine)
    → Finished r before m.printed
    → (c ≡ ok tt) ⊎ (c ≡ crash)
    → m'.printed ≡ m.printed
    → let (r', m'') = continue c (λ _ _ m. (r, m)) env m' in Finished r' before m''.printed
after_cleanup r before (ok _) env m m' h e p = subst (λ after. Finished r before after) (sym p) h
after_cleanup r before (failed _) env m m' h e p = elim e [ inl q ↦ cc | inr q ↦ cc ]
after_cleanup r before (value_error _) env m m' h e p = elim e [ inl q ↦ cc | inr q ↦ cc ]
after_cleanup r before crash env m m' h e p =
    subst (λ after. Finished crash before after) (sym p) (crashed_after r before m.printed h)
after_cleanup r before exhausted env m m' h e p = elim e [ inl q ↦ cc | inr q ↦ cc ]

finally-Finishes :
    (body : Action ℕ) (paths : InstancePaths) (staging_root : AbsolutePath)
    → Finishes body
    → Finishes (finally_do body (clean_up paths staging_root))
finally-Finishes body paths staging_root h = record {
  at = λ env m.
      let (r, m') = body env m in
      let (ends, silent) = clean_up_ends paths staging_root env m' in
      after_cleanup r m.printed _ env m' _ (h.at env m) ends silent;
}

under_lock-Finishes :
    (catalog : Catalog) (args : InstallArgs) (paths : InstancePaths)
    → Finishes (under_lock catalog args paths)
unfolding under_lock
under_lock-Finishes catalog args paths =
    bind-Finishes (unique_name "install") _ (unique_name-Quiet "install") λ name.
      finally-Finishes (staged catalog args paths (child paths.staging_dir name)) paths
        (child paths.staging_dir name)
        (staged-Finishes catalog args paths (child paths.staging_dir name))

module _ (sorted : List String → List String) (catalog : Catalog) (args : InstallArgs) where
  check_install-Quiet : (paths : InstancePaths) → Quiet (check_install sorted catalog args paths)
  unfolding check_install is_registered
  check_install-Quiet paths =
      bind-Quiet (require_tool "git" "git") _ (require_tool-Quiet "git" "git") λ _.
        bind-Quiet (require_tool "uv" "python") _ (require_tool-Quiet "uv" "python") λ _.
          checked-Quiet _ _ _ refl (
            bind-Quiet (path_exists paths.lock) _ (gets-Quiet _) λ is_locked.
              raise_if-Quiet is_locked
                (command_failure exit_precondition "INSTANCE_LOCKED" (locked_message paths)
                  "filesystem")
                refl)

  install_at-Finishes : (paths : InstancePaths) → Finishes (install_at sorted catalog args paths)
  unfolding install_at
  install_at-Finishes paths =
      bind-Finishes (check_install sorted catalog args paths) _ (check_install-Quiet paths) λ _.
        bind-Finishes (ask (λ env t. env.getpid)) _ (ask-Quiet _) λ pid.
          bind-Finishes (write_text paths.lock (show_ℕ pid)) _ (change-Quiet _ _)
            λ _. under_lock-Finishes catalog args paths

  pub install-Finishes : Finishes (command_instance_install sorted catalog args)
  unfolding command_instance_install
  install-Finishes =
      bind-Finishes (ensure_instance_dirs args.data_root args.slug) _
        (ensure_instance_dirs-Quiet args.data_root args.slug) λ paths. install_at-Finishes paths
