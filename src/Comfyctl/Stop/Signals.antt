-- ===== src/Comfyctl/Stop/Signals.antt =====
-- Which process `command_instance_stop` of comfyctl/cli.py signals.
use comfy_shell_v.Prelude.{
  ℕ, ℤ, zero, suc, Bool, true, false, not, ◌≡◌, refl, ◌∙◌, subst, sym, ap, Option, none, some, List,
  ◌∷◌, ltb, ⊤, ◌+◌, if◌then◌else◌, arith,
}
use comfy_shell_v.Prelude.Json.{Fields}
use comfy_shell_v.Comfyctl.Paths.{InstancePaths, valid, instance_paths}
use comfy_shell_v.Comfyctl.Machine.{
  Platform, Machine, passed, Signal, terminate, Killed, delivered, no_process, not_permitted,
  overflow, Result, ok, failed, value_error as value_raised, crash, exhausted, Action,
  CommandFailure, continue, raise_if, success, sleep, ◌>>=◌,
}
use comfy_shell_v.Comfyctl.Processes.{
  read_pid, process_alive, process_owned_by_instance, signalled, send_signal,
}
use comfy_shell_v.Comfyctl.Tools.{instance_paths_of}
use comfy_shell_v.Errors.Codes.{is_registered}
use comfy_shell_v.Comfyctl.Start.{poll_rounds}
use comfy_shell_v.Comfyctl.Stop.{
  outside, StopArgs, not_stopped, stopped, forget, await_end, end_process, stop_alive, stop_pid,
  command_instance_stop,
}
use comfy_shell_v.Comfyctl.Contract.{Quiet}
use comfy_shell_v.Comfyctl.Contract.Leaves.{raise_if-Quiet}
use comfy_shell_v.Comfyctl.Contract.Directories.{checked-ok, instance_paths_of-Quiet}
use comfy_shell_v.Comfyctl.Contract.Processes.{
  read_pid-Quiet, process_alive-Quiet, process_owned_by_instance-Quiet,
}
use comfy_shell_v.Comfyctl.Processes.Owner.{IsInstance, process_owned-IsInstance}

abbrev Sent : Type 0
Sent = List (ℤ × Signal)

module _ {A : Type 0} {B : Type 0} where
  continue-signals :
      (P : Sent → Type 0) (r : Result A) (f : A → Action B) (env : Platform) (m : Machine)
      → P m.signals
      → ((a : A) → r ≡ ok a → P (f a env m).1.signals)
      → P (continue r f env m).1.signals
  continue-signals P (ok a) f env m h k = k a refl
  continue-signals P (failed e) f env m h k = h
  continue-signals P (value_raised text) f env m h k = h
  continue-signals P crash f env m h k = h
  continue-signals P exhausted f env m h k = h

  -- What holds of the signals before a part that sends none holds at its end, too.
  bind-signals :
      (P : Sent → Type 0) (part : Action A) (f : A → Action B) (env : Platform) (m : Machine)
      → Quiet part
      → P m.signals
      → ((a : A) → (part env m).0 ≡ ok a → P (f a env (part env m).1).1.signals)
      → P ((part >>= f) env m).1.signals
  bind-signals P part f env m q h k =
      let (r, m') = part env m in
      continue-signals P r f env m' (subst P (sym (q.sends_nothing env m)) h) k

success-signals :
    (payload : Fields) (env : Platform) (m : Machine)
    → (success payload env m).1.signals ≡ m.signals
unfolding success
success-signals payload env m = refl

forget-signals :
    (paths : InstancePaths) (payload : Fields) (env : Platform) (m : Machine)
    → (forget paths payload env m).1.signals ≡ m.signals
unfolding forget success
forget-signals paths payload env m = ground arith

if-signals :
    (P : Sent → Type 0) (b : Bool) (p q : Action ℕ) (env : Platform) (m : Machine)
    → (b ≡ true → P (p env m).1.signals)
    → (b ≡ false → P (q env m).1.signals)
    → P ((if b then p else q) env m).1.signals
if-signals P true p q env m h k = h refl
if-signals P false p q env m h k = k refl

module _ (args : StopArgs) (paths : InstancePaths) (pid : ℤ) where
  await_end-signals :
      (P : Sent → Type 0) (fuel deadline : ℕ) (env : Platform) (m : Machine)
      → P m.signals
      → P (await_end fuel args paths pid deadline env m).1.signals
  unfolding await_end
  await_end-signals P zero deadline env m h = h
  await_end-signals P (suc fuel) deadline env m h =
      if-signals P (ltb m.now deadline) _ _ env m
        (λ _. bind-signals P (process_alive pid) _ env m (process_alive-Quiet pid) h λ is_alive _.
          let m1 = (process_alive pid env m).1 in
          let h1 = subst P (sym ((process_alive-Quiet pid).sends_nothing env m)) h in
          if-signals P is_alive _ _ env m1
            (λ _. await_end-signals P fuel deadline env (sleep 200 env m1).1 h1)
            (λ _. subst P (sym (forget-signals paths (stopped args pid) env m1)) h1))
        (λ _. h)

-- The only signal of a run, if it sends one
pub data SignalOf (args : StopArgs) (env : Platform) (m : Machine) (before : Sent)
    : Sent → Type 0 where
  no_signal : SignalOf args env m before before
  one_signal :
      (paths : InstancePaths) (pid : ℤ)
      → instance_paths env.paths args.data_root args.slug ≡ valid paths
      → (read_pid paths.pid_file env m).0 ≡ ok (some pid)
      → IsInstance env pid paths
      → SignalOf args env m before ((pid, terminate) ∷ before)

signalled-signals :
    (P : Sent → Type 0) (pid : ℤ) (answer : Killed) (env : Platform) (m : Machine)
    → P m.signals
    → P ((pid, terminate) ∷ m.signals)
    → P (signalled pid terminate answer env m).1.signals
signalled-signals P pid delivered env m h k = k
signalled-signals P pid no_process env m h k = h
signalled-signals P pid not_permitted env m h k = h
signalled-signals P pid overflow env m h k = h

raise_if-ok :
    (b : Bool) (e : CommandFailure) (env : Platform) (m : Machine) (u : ⊤)
    → (raise_if (not b) e env m).0 ≡ ok u
    → b ≡ true
raise_if-ok true e env m u h = refl
raise_if-ok false e env m u h = cc

module _ (args : StopArgs) (paths : InstancePaths) (pid : ℤ) (env : Platform)
    (P : Sent → Type 0) where
  end_process-signals :
      (m : Machine)
      → P m.signals
      → P ((pid, terminate) ∷ m.signals)
      → P (end_process args paths pid env m).1.signals
  unfolding end_process send_signal
  end_process-signals m h k =
      let sent = signalled-signals P pid (env.kill m.tick pid terminate) env (passed env m) h k in
      let (r, m') = send_signal pid terminate env m in
      continue-signals P r _ env m' sent λ _ _.
        await_end-signals args paths pid P (poll_rounds args.timeout) (m'.now + args.timeout) env m'
          sent

  stop_alive-signals :
      (m : Machine)
      → P m.signals
      → (IsInstance env pid paths → P ((pid, terminate) ∷ m.signals))
      → P (stop_alive args paths pid env m).1.signals
  unfolding stop_alive is_registered
  stop_alive-signals m h k =
      let part = process_owned_by_instance pid paths in
      let quiet = process_owned_by_instance-Quiet pid paths in
      bind-signals P part _ env m quiet h λ is_owned owned.
        let m1 = (part env m).1 in
        let same = sym (quiet.sends_nothing env m) in
        bind-signals P (raise_if (not is_owned) (outside pid)) _ env m1
          (raise_if-Quiet (not is_owned) (outside pid) refl) (subst P same h)
          λ u passes. end_process-signals m1 (subst P same h) (
            subst (λ s. P ((pid, terminate) ∷ s)) same
              (k (
                process_owned-IsInstance pid paths env m
                  (owned ∙ ap (λ b. ok b) (raise_if-ok is_owned (outside pid) env m1 u passes)))))

  stop_pid-signals :
      (m : Machine)
      → P m.signals
      → (IsInstance env pid paths → P ((pid, terminate) ∷ m.signals))
      → P (stop_pid args paths (some pid) env m).1.signals
  unfolding stop_pid
  stop_pid-signals m h k =
      let quiet = process_alive-Quiet pid in
      bind-signals P (process_alive pid) _ env m quiet h λ is_alive _.
        let m1 = (process_alive pid env m).1 in
        let same = sym (quiet.sends_nothing env m) in
        if-signals P is_alive _ _ env m1
          (λ _.
            stop_alive-signals m1 (subst P same h)
              (λ is. subst (λ s. P ((pid, terminate) ∷ s)) same (k is)))
          (λ _.
            subst P (sym (forget-signals paths (not_stopped args "process_not_alive") env m1))
              (subst P same h))

signals_by_pid :
    (args : StopArgs) (paths : InstancePaths) (pid : Option ℤ) (env : Platform) (m m' : Machine)
    → instance_paths env.paths args.data_root args.slug ≡ valid paths
    → (read_pid paths.pid_file env m).0 ≡ ok pid
    → SignalOf args env m m.signals m'.signals
    → m'.signals ≡ m.signals
    → SignalOf args env m m.signals (stop_pid args paths pid env m').1.signals
unfolding stop_pid
signals_by_pid args paths none env m m' at_paths at_pid h e =
    subst (SignalOf args env m m.signals)
      (sym (success-signals (not_stopped args "pid_file_missing") env m')) h
signals_by_pid args paths (some pid) env m m' at_paths at_pid h e =
    stop_pid-signals args paths pid env (SignalOf args env m m.signals) m' h (λ is.
      subst (λ s. SignalOf args env m m.signals ((pid, terminate) ∷ s)) (sym e)
        (one_signal paths pid at_paths at_pid is))

-- A stop sends no signal, or sends one SIGTERM to the process whose id the instance's pid
-- file held, after the process was found working in the resolved checkout of the instance and
-- running a main.py.
pub stop-SignalOf :
    (args : StopArgs) (env : Platform) (m : Machine)
    → SignalOf args env m m.signals (command_instance_stop args env m).1.signals
unfolding command_instance_stop instance_paths_of
stop-SignalOf args env m =
    let P = SignalOf args env m m.signals in
    bind-signals P (instance_paths_of args.data_root args.slug) _ env m
      (instance_paths_of-Quiet args.data_root args.slug) no_signal
      λ paths found.
        let (at_paths, same) = checked-ok _ paths env m found in
        let m1 = (instance_paths_of args.data_root args.slug env m).1 in
        let quiet = read_pid-Quiet paths.pid_file in
        bind-signals P (read_pid paths.pid_file) _ env m1 quiet
          (subst (λ w. P w.signals) (sym same) no_signal)
          λ pid read.
            let m2 = (read_pid paths.pid_file env m1).1 in
            let e = quiet.sends_nothing env m1 ∙ ap (λ w. w.signals) same in
            signals_by_pid args paths pid env m m2 at_paths
              (subst (λ w. (read_pid paths.pid_file env w).0 ≡ ok pid) same read)
              (subst P (sym e) no_signal) e
