-- ===== src/Comfyctl/Contract/Stop.antt =====
-- The ends of `command_instance_stop` of comfyctl/cli.py, whose loop ends with the clock.
use comfy_shell_v.Prelude.{
  ℕ, ℤ, zero, suc, ◌+◌, ◌*◌, ◌/◌, ◌≤◌, not, ◌≡◌, refl, arith, Option, none, some, ltb,
}
use comfy_shell_v.Prelude.Json.{Fields}
use comfy_shell_v.Errors.Codes.{is_registered}
use comfy_shell_v.Comfyctl.Paths.{InstancePaths}
use comfy_shell_v.Comfyctl.Machine.{Platform, Machine, terminate, raise_if, sleep, unlink_if_there}
use comfy_shell_v.Comfyctl.Processes.{
  read_pid, process_alive, process_owned_by_instance, send_signal,
}
use comfy_shell_v.Comfyctl.Tools.{instance_paths_of}
use comfy_shell_v.Comfyctl.Stop.{
  StopArgs, not_stopped, stopped, forget, await_end, end_process, stop_alive, stop_pid,
  command_instance_stop,
}
use comfy_shell_v.Comfyctl.Contract.{
  Quiet-Silent, Finishes, Finished, value, bind-Finished, bind-Finishes, if-Finished,
  success-Finishes,
}
use comfy_shell_v.Comfyctl.Contract.Leaves.{change-Quiet, sleep-Quiet, raise_if-Quiet}
use comfy_shell_v.Comfyctl.Contract.Directories.{instance_paths_of-Quiet}
use comfy_shell_v.Comfyctl.Contract.Processes.{
  read_pid-Quiet, process_alive-Quiet, process_owned_by_instance-Quiet, send_signal-Silent,
}

forget-Finishes :
    (paths : InstancePaths) (payload : Fields)
    → value "error_code" payload ≡ none
    → Finishes (forget paths payload)
unfolding forget
forget-Finishes paths payload h =
    bind-Finishes (unlink_if_there paths.pid_file) _ (change-Quiet _ _)
      λ _. success-Finishes payload h

pub process_alive_takes_time :
    (pid : ℤ) (env : Platform) (m : Machine) → m.now ≤ (process_alive pid env m).1.now
unfolding process_alive
process_alive_takes_time pid env m = ground arith

-- With a round for each 200 milliseconds up to the deadline, and one more, the loop ends.
pub await_end-Finished :
    (fuel : ℕ) (args : StopArgs) (paths : InstancePaths) (pid : ℤ) (deadline : ℕ) (env : Platform)
    (m : Machine)
    → deadline ≤ m.now + 200 * fuel
    → let (r, m') = await_end (suc fuel) args paths pid deadline env m in
      Finished r m.printed m'.printed
unfolding await_end is_registered
await_end-Finished zero args paths pid deadline env m h =
    if-Finished (ltb m.now deadline) _ _ env m (λ t. absurd (ground arith)) (λ t. (refl, refl))
await_end-Finished (suc fuel) args paths pid deadline env m h =
    if-Finished (ltb m.now deadline) _ _ env m
      (λ t.
        bind-Finished (process_alive pid) _ env m (Quiet-Silent (process_alive-Quiet pid))
          λ is_alive e.
            if-Finished is_alive _ _ env (process_alive pid env m).1
              (λ alive.
                bind-Finished (sleep 200) (λ _. await_end (suc fuel) args paths pid deadline) env
                  (process_alive pid env m).1 (Quiet-Silent (sleep-Quiet 200))
                  λ _ _.
                    await_end-Finished fuel args paths pid deadline env
                      (sleep 200 env (process_alive pid env m).1).1
                      (omega (arith, process_alive_takes_time pid env m)))
              (λ ended. (forget-Finishes paths (stopped args pid) refl).at env _))
      (λ t. (refl, refl))

end_process-Finishes :
    (args : StopArgs) (paths : InstancePaths) (pid : ℤ) → Finishes (end_process args paths pid)
unfolding end_process
end_process-Finishes args paths pid = record {
  at = λ env m.
      bind-Finished (send_signal pid terminate) _ env m (send_signal-Silent pid terminate)
        λ _ _. await_end-Finished (suc (args.timeout / 200)) args paths pid _ env _ (omega arith);
}

stop_alive-Finishes :
    (args : StopArgs) (paths : InstancePaths) (pid : ℤ) → Finishes (stop_alive args paths pid)
unfolding stop_alive is_registered
stop_alive-Finishes args paths pid =
    bind-Finishes (process_owned_by_instance pid paths) _
      (process_owned_by_instance-Quiet pid paths)
      λ is_owned.
        bind-Finishes (raise_if (not is_owned) _) _ (raise_if-Quiet (not is_owned) _ refl)
          λ _. end_process-Finishes args paths pid

stop_pid-Finishes :
    (args : StopArgs) (paths : InstancePaths) (pid : Option ℤ) → Finishes (stop_pid args paths pid)
unfolding stop_pid
stop_pid-Finishes args paths none = success-Finishes _ refl
stop_pid-Finishes args paths (some pid) =
    bind-Finishes (process_alive pid) _ (process_alive-Quiet pid) λ is_alive. record {
      at = λ env m.
          if-Finished is_alive _ _ env m (λ _. (stop_alive-Finishes args paths pid).at env m)
            (λ _. (forget-Finishes paths (not_stopped args "process_not_alive") refl).at env m);
    }

pub stop-Finishes : (args : StopArgs) → Finishes (command_instance_stop args)
unfolding command_instance_stop
stop-Finishes args =
    bind-Finishes (instance_paths_of args.data_root args.slug) _
      (instance_paths_of-Quiet args.data_root args.slug)
      λ paths.
        bind-Finishes (read_pid paths.pid_file) _ (read_pid-Quiet paths.pid_file)
          λ pid. stop_pid-Finishes args paths pid
