-- ===== src/Comfyctl/Start/Launch.antt =====
-- The process that `command_instance_start` of comfyctl/cli.py makes.

use comfy_shell_v.Prelude.{ℕ, ℤ, ◌≡◌, ◌∙◌, not, Option, none, some}
use comfy_shell_v.Comfyctl.Paths.{InstancePaths, child}
use comfy_shell_v.Comfyctl.Machine.{
  Platform, Machine, Result, ok, Action, raise_if, ask, path_exists, ◌>>=◌,
}
use comfy_shell_v.Comfyctl.Tools.{
  command_failure, exit_precondition, ensure_port_free, write_extra_model_paths,
}
use comfy_shell_v.Comfyctl.Contract.{bind-ok}
use comfy_shell_v.Comfyctl.Start.{
  StartArgs, launch, start_command, visible_devices, or_os_error, open_log,
}

-- The child process whose id `launch` returns is the one that the operating system has made.
or_os_error-ok :
    (child_process : Option ℤ) (pid : ℤ) (env : Platform) (m : Machine)
    → (or_os_error child_process env m).0 ≡ ok pid
    → child_process ≡ some pid
or_os_error-ok none pid env m h = cc
or_os_error-ok (some p) pid env m h = cc

abbrev pub Spawned : StartArgs → InstancePaths → Platform → ℤ → Type 0
Spawned args paths env pid =
    (t : ℕ) × (env.spawn t (start_command args paths) paths.checkout (visible_devices args.gpu)
      ≡ some pid)

-- A part that returns nothing but the id of a process that the operating system has made
pub record Gives (args : StartArgs) (paths : InstancePaths) (env : Platform) (part : Action ℤ)
    : Type 0 where
  pub at : (m : Machine) (pid : ℤ) → (part env m).0 ≡ ok pid → Spawned args paths env pid

module _ (args : StartArgs) (paths : InstancePaths) (env : Platform) where
  bind-Gives :
      {A : Type 0} (part : Action A) (f : A → Action ℤ)
      → ((a : A) → Gives args paths env (f a))
      → Gives args paths env (part >>= f)
  bind-Gives part f k = record {
    at = λ m pid h. let (a, _, h1) = bind-ok part f env m pid h in (k a).at (part env m).1 pid h1;
  }

  spawn : Action (Option ℤ)
  spawn =
      ask
        (λ env t. env.spawn t (start_command args paths) paths.checkout (visible_devices args.gpu))

  spawn-Gives : Gives args paths env (spawn >>= or_os_error)
  unfolding spawn
  spawn-Gives = record {
    at = λ m pid h.
        let (p, asked, h1) = bind-ok spawn or_os_error env m pid h in
        (m.tick, same_answer asked ∙ or_os_error-ok p pid env (spawn env m).1 h1);
  }
    where
      same_answer : {a b : Option ℤ} → ◌≡◌ {A = Result (Option ℤ)} (ok a) (ok b) → a ≡ b
      same_answer e = cc

  pub launch-Gives : Gives args paths env (launch args paths)
  unfolding launch spawn
  launch-Gives = bind-Gives (path_exists paths.checkout) _ λ has_checkout.
      bind-Gives
        (raise_if (not has_checkout) (
          command_failure exit_precondition "INSTANCE_NOT_INSTALLED"
            "ComfyUI checkout does not exist" "filesystem"))
        _
        λ _. bind-Gives (ensure_port_free args.host args.port) _ λ _.
          bind-Gives (write_extra_model_paths paths.extra_model_paths args.model_root) _ λ _.
            bind-Gives (path_exists (child (child paths.venv "bin") "python")) _ λ has_python.
              bind-Gives
                (raise_if (not has_python) (
                  command_failure exit_precondition "VENV_MISSING" "instance venv does not exist"
                    "python"))
                _ λ _. bind-Gives (open_log paths.log_file) _ λ _. spawn-Gives
