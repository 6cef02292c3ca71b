-- ===== src/Comfyctl/Contract/Start.antt =====
-- The ends of `command_instance_start` of comfyctl/cli.py, whose loop ends with the clock.
use comfy_shell_v.Prelude.{
  ℕ, ℤ, zero, suc, ◌+◌, ◌*◌, ◌/◌, ◌≤◌, String, Bool, true, false, not, refl, arith, Option, none,
  some, ltb, if◌then◌else◌,
}
use comfy_shell_v.Errors.Codes.{is_registered}
use comfy_shell_v.Comfyctl.Paths.{InstancePaths, child}
use comfy_shell_v.Comfyctl.Machine.{
  Platform, Machine, passed, Signal, Killed, delivered, no_process, not_permitted, overflow, Action,
  terminate, kill, pure, raise_if, sleep, ask, path_exists, write_text, raise_crash, ◌>>◌,
}
use comfy_shell_v.Comfyctl.Tools.{
  command_failure, exit_precondition, show_ℤ, port_open, ensure_port_free, tail_file,
  write_extra_model_paths, ensure_instance_dirs,
}
use comfy_shell_v.Comfyctl.Start.{
  StartArgs, open_log, or_os_error, raise_not_started, answered, signal_if_running, send_to_child,
  kill_and_wait, late_message, give_up, started, start_payload, exited_early, after_try, after_poll,
  await_port, launch, visible_devices, start_command, command_instance_start,
}
use comfy_shell_v.Comfyctl.Contract.{
  Quiet, Silent, Quiet-Silent, Finishes, Finished, bind-Quiet, bind-Silent, bind-Finished,
  bind-Finishes, bind-Finishes-Silent, if-Finished, success-Finishes, raise-Finishes,
}
use comfy_shell_v.Comfyctl.Contract.Leaves.{
  pure-Quiet, crash-Quiet, gets-Quiet, ask-Quiet, raise-Quiet, raise_if-Quiet, change-Quiet,
  sleep-Quiet, port_open-Quiet, ensure_port_free-Quiet, tail_file-Quiet,
  write_extra_model_paths-Quiet,
}
use comfy_shell_v.Comfyctl.Contract.Directories.{ensure_instance_dirs-Quiet}

not_started-Quiet :
    {A : Type 0} (message : String) (paths : InstancePaths)
    → Quiet (raise_not_started {A = A} message paths)
unfolding is_registered
not_started-Quiet message paths =
    bind-Quiet (tail_file paths.log_file) _ (tail_file-Quiet paths.log_file)
      λ tail. raise-Quiet _ refl

not_started-Finishes :
    (message : String) (paths : InstancePaths) → Finishes (raise_not_started message paths)
unfolding is_registered
not_started-Finishes message paths =
    bind-Finishes (tail_file paths.log_file) _ (tail_file-Quiet paths.log_file)
      λ tail. raise-Finishes _ refl

answered-Silent :
    (pid : ℤ) (signal : Signal) (answer : Killed) → Silent (answered pid signal answer)
answered-Silent pid signal delivered = record {
  ends = λ env m. refl;
  prints_nothing = λ env m. refl;
}
answered-Silent pid signal no_process = Quiet-Silent (pure-Quiet tt)
answered-Silent pid signal not_permitted = Quiet-Silent crash-Quiet
answered-Silent pid signal overflow = Quiet-Silent crash-Quiet

if_running-Silent :
    (pid : ℤ) (signal : Signal) (code : Option ℤ) → Silent (signal_if_running pid signal code)
if_running-Silent pid signal (some code) = Quiet-Silent (pure-Quiet tt)
if_running-Silent pid signal none =
    bind-Silent (ask (λ env t. env.kill t pid signal)) _ (Quiet-Silent (ask-Quiet _))
      λ answer. answered-Silent pid signal answer

send_to_child-Silent : (pid : ℤ) (signal : Signal) → Silent (send_to_child pid signal)
unfolding send_to_child
send_to_child-Silent pid signal =
    bind-Silent (ask (λ env t. env.poll t pid)) _ (Quiet-Silent (ask-Quiet _))
      λ code. if_running-Silent pid signal code

if-Silent :
    {A : Type 0} (b : Bool) (p q : Action A) → Silent p → Silent q → Silent (if b then p else q)
if-Silent true p q h k = h
if-Silent false p q h k = k

kill_and_wait-Silent : (pid : ℤ) → Silent (kill_and_wait pid)
kill_and_wait-Silent pid =
    bind-Silent (send_to_child pid kill) _ (send_to_child-Silent pid kill) λ _.
      bind-Silent (ask (λ env t. env.ends t pid)) _ (Quiet-Silent (ask-Quiet _)) λ has_ended.
        if-Silent has_ended (pure tt) raise_crash (Quiet-Silent (pure-Quiet tt))
          (Quiet-Silent crash-Quiet)

or_os_error-Quiet : (pid : Option ℤ) → Quiet (or_os_error pid)
or_os_error-Quiet none = crash-Quiet
or_os_error-Quiet (some pid) = pure-Quiet pid

module _ (args : StartArgs) (paths : InstancePaths) (pid : ℤ) where
  give_up-Finishes : Finishes (give_up args paths pid)
  unfolding give_up
  give_up-Finishes =
      bind-Finishes-Silent (send_to_child pid terminate) _ (send_to_child-Silent pid terminate) λ _.
        bind-Finishes (ask (λ env t. env.ends t pid)) _ (ask-Quiet _) λ has_ended.
          bind-Finishes-Silent (if has_ended then pure tt else kill_and_wait pid) _
            (if-Silent has_ended (pure tt) (kill_and_wait pid) (Quiet-Silent (pure-Quiet tt))
              (kill_and_wait-Silent pid))
            λ _. not_started-Finishes (late_message args) paths

  started-Finishes : Finishes (started args paths pid)
  unfolding started
  started-Finishes =
      bind-Finishes (write_text paths.pid_file (show_ℤ pid)) _ (change-Quiet _ _)
        λ _. success-Finishes (start_payload args paths pid) refl

  exited_early-Quiet : (code : Option ℤ) → Quiet (exited_early paths code)
  exited_early-Quiet none = pure-Quiet tt
  exited_early-Quiet (some code) = not_started-Quiet _ paths

  pub exited_early_takes_time :
      (code : Option ℤ) (env : Platform) (m : Machine)
      → m.now ≤ (exited_early paths code env m).1.now
  unfolding tail_file
  exited_early_takes_time none env m = ground arith
  exited_early_takes_time (some code) env m = ground arith

  pub port_open_takes_time :
      (env : Platform) (m : Machine) → m.now ≤ (port_open args.host args.port env m).1.now
  unfolding port_open
  port_open_takes_time env m = ground arith

  after_poll-Finished :
      (again : Action ℕ) (code : Option ℤ) (env : Platform) (m : Machine)
      → ((m' : Machine)
          → m.now + 200 ≤ m'.now
          → Finished (again env m').0 m'.printed (again env m').1.printed)
      → let (r, m') = after_poll args paths pid again code env m in Finished r m.printed m'.printed
  after_poll-Finished again code env m h =
      let m1 = (exited_early paths code env m).1 in
      let m2 = (port_open args.host args.port env m1).1 in
      bind-Finished (exited_early paths code) _ env m (Quiet-Silent (exited_early-Quiet code))
        λ _ _.
          bind-Finished (port_open args.host args.port) (after_try args paths pid again) env m1
            (Quiet-Silent (port_open-Quiet args.host args.port))
            λ is_open _.
              if-Finished is_open (started args paths pid) (sleep 200 >> again) env m2
                (λ _. started-Finishes.at env m2)
                (λ _.
                  bind-Finished (sleep 200) (λ _. again) env m2 (Quiet-Silent (sleep-Quiet 200))
                    λ _ _. h (sleep 200 env m2).1 (
                      omega
                        (arith, exited_early_takes_time code env m, port_open_takes_time env m1)))

  -- With a round for each 200 milliseconds up to the deadline, and one more, the loop ends.
  pub await_port-Finished :
      (fuel deadline : ℕ) (env : Platform) (m : Machine)
      → deadline ≤ m.now + 200 * fuel
      → let (r, m') = await_port (suc fuel) args paths pid deadline env m in
        Finished r m.printed m'.printed
  unfolding await_port
  await_port-Finished zero deadline env m h =
      if-Finished (ltb m.now deadline) _ _ env m (λ t. absurd (ground arith))
        (λ t. give_up-Finishes.at env m)
  await_port-Finished (suc fuel) deadline env m h =
      let again = await_port (suc fuel) args paths pid deadline in
      if-Finished (ltb m.now deadline) _ _ env m
        (λ t.
          bind-Finished (ask (λ env t. env.poll t pid)) (after_poll args paths pid again) env m
            (Quiet-Silent (ask-Quiet _))
            λ code _.
              after_poll-Finished again code env (passed env m)
                λ m' later. await_port-Finished fuel deadline env m' (omega (arith, later)))
        (λ t. give_up-Finishes.at env m)

module _ (args : StartArgs) (paths : InstancePaths) where
  launch-Quiet : Quiet (launch args paths)
  unfolding launch is_registered
  launch-Quiet = bind-Quiet (path_exists paths.checkout) _ (gets-Quiet _) λ has_checkout.
      bind-Quiet (raise_if (not has_checkout) _) _
        (raise_if-Quiet (not has_checkout)
          (command_failure exit_precondition "INSTANCE_NOT_INSTALLED"
            "ComfyUI checkout does not exist" "filesystem")
          refl)
        λ _.
          bind-Quiet (ensure_port_free args.host args.port) _
            (ensure_port_free-Quiet args.host args.port)
            λ _.
              bind-Quiet (write_extra_model_paths paths.extra_model_paths args.model_root) _
                (write_extra_model_paths-Quiet paths.extra_model_paths args.model_root)
                λ _.
                  bind-Quiet (path_exists (child (child paths.venv "bin") "python")) _
                    (gets-Quiet _)
                    λ has_python.
                      bind-Quiet (raise_if (not has_python) _) _
                        (raise_if-Quiet (not has_python)
                          (command_failure exit_precondition "VENV_MISSING"
                            "instance venv does not exist" "python")
                          refl)
                        λ _. bind-Quiet (open_log paths.log_file) _ (change-Quiet _ _) λ _.
                          bind-Quiet
                            (ask (λ env t.
                              env.spawn t (start_command args paths) paths.checkout
                                (visible_devices args.gpu)))
                            _ (ask-Quiet _) λ child_process. or_os_error-Quiet child_process

pub start-Finishes : (args : StartArgs) → Finishes (command_instance_start args)
unfolding command_instance_start
start-Finishes args =
    bind-Finishes (ensure_instance_dirs args.data_root args.slug) _
      (ensure_instance_dirs-Quiet args.data_root args.slug)
      λ paths. bind-Finishes (launch args paths) _ (launch-Quiet args paths) λ pid. record {
        at = λ env m.
            await_port-Finished args paths pid (suc (args.startup_timeout / 200)) _ env m
              (omega arith);
      }
