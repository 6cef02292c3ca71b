-- ===== src/Comfyctl/Install/Outcome/Locked.antt =====
-- Two runs of `command_instance_install` of comfyctl/cli.py for one instance, by the lock.
use comfy_shell_v.Prelude.{
  ℕ, is_some, String, Bool, true, false, ◌≡◌, ◌≢◌, refl, ◌∙◌, sym, ap, subst, arith, none, List, [],
  ⊤,
}
use comfy_shell_v.Prelude.Json.{Fields}
use comfy_shell_v.Prelude.Decimal.{show_ℕ}
use comfy_shell_v.Comfyctl.Catalog.{Catalog}
use comfy_shell_v.Comfyctl.Paths.{AbsolutePath, InstancePaths, valid, layout, instance_paths}
use comfy_shell_v.Comfyctl.Machine.{
  Platform, Machine, CommandFailure, Result, ok, failed, value_error, crash, exhausted, Action,
  continue, exists, pure, ask, write_text, ◌>>=◌, ◌>>◌,
}
use comfy_shell_v.Comfyctl.Tools.{require_tool, make_instance_dirs}
use comfy_shell_v.Comfyctl.Main.{main, instance_install, handled, failure}
use comfy_shell_v.Comfyctl.Contract.{Finished, is_known}
use comfy_shell_v.Comfyctl.Contract.Install.{install-Finishes}
use comfy_shell_v.Comfyctl.Install.Prepare.{InstallArgs}
use comfy_shell_v.Comfyctl.Install.{check_install, install_at, under_lock, command_instance_install}
use comfy_shell_v.Comfyctl.Install.Keeps.{
  lock_place, pure-Keeps, bind-Keeps, make_instance_dirs-Keeps,
}
use comfy_shell_v.Comfyctl.Install.Outcome.Failing.{made_returns, ensure_instance_dirs-valid}
use comfy_shell_v.Comfyctl.Install.Outcome.Lock.{Removes, install_at-Unlocks, check_install-Keeps}

abbrev is_ok {ℓ} : {A : Type ℓ} → Result A → Bool
is_ok (ok a) = true
is_ok _ = false

-- Where a part can return one value only, what follows is one action.
known_cases :
    (P : Bool → Machine → Type 0) {A : Type 0} (r : Result A) (a : A) (f : A → Action ℕ)
    (env : Platform) (m : Machine)
    → ((b : A) → r ≡ ok b → b ≡ a)
    → P false m
    → P (is_ok (f a env m).0) (f a env m).1
    → P (is_ok (continue r f env m).0) (continue r f env m).1
known_cases P (ok b) a f env m only h k =
    subst (λ c. P (is_ok (f c env m).0) (f c env m).1) (sym (only b refl)) k
known_cases P (failed e) a f env m only h k = h
known_cases P (value_error text) a f env m only h k = h
known_cases P crash a f env m only h k = h
known_cases P exhausted a f env m only h k = h

handled_files : (r : Result ℕ) (env : Platform) (m : Machine) → (handled r env m).1.files ≡ m.files
unfolding handled failure
handled_files (ok n) env m = refl
handled_files (failed e) env m = refl
handled_files (value_error text) env m = refl
handled_files crash env m = refl
handled_files exhausted env m = refl

known_code : (e : CommandFailure) → is_known e ≡ true → e.exit_code ≢ 0
known_code e h = ground arith

handled_code :
    (r : Result ℕ) (env : Platform) (m : Machine) (before : List Fields)
    → Finished r before m.printed
    → is_ok r ≡ false
    → (handled r env m).0 ≢ ok 0
unfolding handled failure
handled_code (ok n) env m before f h = cc
handled_code (failed e) env m before (known, p) h = λ same. known_code e known (same_code same)
  where
    same_code : {j : ℕ} → ◌≡◌ {A = Result ℕ} (ok j) (ok 0) → j ≡ 0
    same_code e = cc
handled_code (value_error text) env m before f h = λ same. cc
handled_code crash env m before f h = λ same. cc
handled_code exhausted env m before f h = λ same. cc

module _ (sorted : List String → List String) (catalog : Catalog) (args : InstallArgs) where
  check_install-held :
      (paths : InstancePaths) (env : Platform) (m : Machine)
      → exists m.files paths.lock ≡ true
      → is_ok (check_install sorted catalog args paths env m).0 ≡ false
  unfolding check_install require_tool
  check_install-held paths env m h = ground (arith, h)

  continue_held :
      {A : Type 0} (r : Result A) (f : A → Action ℕ) (env : Platform) (m : Machine)
      → is_ok r ≡ false
      → (is_ok (continue r f env m).0 ≡ false) × ((continue r f env m).1 ≡ m)
  continue_held (ok a) f env m h = cc
  continue_held (failed e) f env m h = (refl, refl)
  continue_held (value_error text) f env m h = (refl, refl)
  continue_held crash f env m h = (refl, refl)
  continue_held exhausted f env m h = (refl, refl)

  install_at-held :
      (paths : InstancePaths) (env : Platform) (m : Machine)
      → exists m.files paths.lock ≡ true
      → let (r, m') = install_at sorted catalog args paths env m in
        (is_ok r ≡ false) × (m'.files paths.lock ≡ m.files paths.lock)
  unfolding install_at
  install_at-held paths env m h =
      let (r, m1) = check_install sorted catalog args paths env m in
      let then_locked : ⊤ → Action ℕ = λ _. ask (λ env t. env.getpid) >>= λ pid.
      write_text paths.lock (show_ℕ pid) >> under_lock catalog args paths in
      let (not_ok, same) = continue_held r then_locked env m1 (check_install-held paths env m h) in
      (
        not_ok,
        ap (λ w. w.files paths.lock) same
            ∙ (check_install-Keeps sorted catalog args env paths paths.lock).at m,
      )

  module _ (root : AbsolutePath) (env : Platform) (m : Machine)
      (found : instance_paths env.paths args.data_root args.slug ≡ valid (layout root)) where
    abbrev lock : AbsolutePath
    lock = (layout root).lock

    made : Action InstancePaths
    made = make_instance_dirs (layout root) >> pure (layout root)

    made_keeps : (made env m).1.files lock ≡ m.files lock
    unfolding made
    made_keeps =
        (bind-Keeps env lock (make_instance_dirs (layout root)) _
            (make_instance_dirs-Keeps root lock_place [] env)
            λ _. pure-Keeps env lock (layout root)).at
          m

    -- The directories are made, and the rest is done with the paths that were found.
    command_cases :
        (P : Bool → Machine → Type 0)
        → ((w : Machine) → w.files lock ≡ m.files lock → P false w)
        → ((w : Machine)
            → w.files lock ≡ m.files lock
            → let (r, w') = install_at sorted catalog args (layout root) env w in P (is_ok r) w')
        → let (r, w) = command_instance_install sorted catalog args env m in P (is_ok r) w
    unfolding command_instance_install made
    command_cases P stops goes =
        let after = λ (r : Result InstancePaths × Machine).
          continue r.0 (install_at sorted catalog args) env r.1 in
        subst (λ r. P (is_ok (after r).0) (after r).1)
          (sym (ensure_instance_dirs-valid args.data_root args.slug (layout root) env m found))
          (known_cases P (made env m).0 (layout root) (install_at sorted catalog args) env
            (made env m).1
            (λ b h. made_returns (make_instance_dirs (layout root)) (layout root) b env m h)
            (stops (made env m).1 made_keeps) (goes (made env m).1 made_keeps))

  -- Where the operating system removes what it is asked to remove and the paths of the
  -- instance are found, a run of install leaves no lock where there was none, however it
  -- ends; and where the lock is there, it does not exit with 0 and leaves the lock as it was.
  pub install-lock :
      (root : AbsolutePath) (env : Platform) (m : Machine)
      → Removes env
      → instance_paths env.paths args.data_root args.slug ≡ valid (layout root)
      → let (r, m') = main sorted catalog (instance_install args) env m in
        (m.files (layout root).lock ≡ none → m'.files (layout root).lock ≡ none)
        × (exists m.files (layout root).lock ≡ true
            → (r ≢ ok 0) × (m'.files (layout root).lock ≡ m.files (layout root).lock))
  unfolding main
  install-lock root env m removes found =
      let (r, m') = command_instance_install sorted catalog args env m in
      let same = ap (λ files. files (lock root env m found)) (handled_files r env m') in
      (
        λ free.
            same
            ∙ command_cases root env m found (λ _ w. w.files (layout root).lock ≡ none)
                (λ w e. e ∙ free)
                (λ w e.
                  (install_at-Unlocks sorted catalog args env removes (layout root)).at w
                    (e ∙ free)),
        λ held.
            let (not_ok, kept) =
              command_cases root env m found
                (λ b w. (b ≡ false) × (w.files (layout root).lock ≡ m.files (layout root).lock))
                (λ w e. (refl, e))
                (λ w e.
                  let (bad, keeps) =
                    install_at-held (layout root) env w
                      (subst (λ n. is_some n ≡ true) (sym e) held) in
                  (bad, keeps ∙ e)) in
            (
              handled_code r env m' m.printed ((install-Finishes sorted catalog args).at env m)
                  not_ok,
              same ∙ kept,
            ),
      )
