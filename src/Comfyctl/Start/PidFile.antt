-- ===== src/Comfyctl/Start/PidFile.antt =====
-- The pid file that `command_instance_start` of comfyctl/cli.py leaves, as `read_pid` reads it.
use Prim.Native.Char.{Char}
use comfy_shell_v.Prelude.{
  eq_iff, Bool-cases, inl, inr, ℕ, ℤ, zero, suc, ◌≡◌, refl, sym, ap, ◌∙◌, subst, arith, String,
  Bool, true, false, some, List, [], ◌∷◌, ◌==◌, ltb, eq_refl, if◌then◌else◌, ◌+◌, ⊤,
}
use comfy_shell_v.Prelude.Json.{Fields, number}
use comfy_shell_v.Prelude.Lines.{strip}
use comfy_shell_v.Comfyctl.Paths.{AbsolutePath, InstancePaths}
use comfy_shell_v.Comfyctl.Machine.{
  Platform, Machine, Result, ok, Action, file, pure, ask, gets, sleep, write_text, same_path,
  terminate, ◌>>=◌, ◌>>◌, success,
}
use comfy_shell_v.Comfyctl.Tools.{show_ℤ, is_zero, port_open, tail_file, ensure_instance_dirs}
use comfy_shell_v.Comfyctl.Processes.{parse_int, read_pid, pid_in, pid_at}
use comfy_shell_v.Comfyctl.Processes.PidText.{parse_int-strip-show_ℤ}
use comfy_shell_v.Comfyctl.Contract.{value, bind-ok, bind-returns}
use comfy_shell_v.Comfyctl.Start.{
  StartArgs, start_payload, started, give_up, raise_not_started, late_message, send_to_child,
  kill_and_wait, exited_early, after_try, after_poll, await_port, poll_rounds, launch,
  start_command, visible_devices, command_instance_start,
}
use comfy_shell_v.Comfyctl.Start.Launch.{launch-Gives}
use comfy_shell_v.Comfyctl.Paths.{valid, instance_paths}
use comfy_shell_v.Comfyctl.Tools.{instance_paths_of, make_instance_dirs}
use comfy_shell_v.Comfyctl.Contract.Directories.{checked-ok}

-- An object with the id of the process has been printed, and `read_pid` gives the same id.
pub record Started (paths : InstancePaths) (pid : ℤ) (m' : Machine) : Type 0 where
  pub payload : Fields
  pub earlier : List Fields
  pub prints : m'.printed ≡ payload ∷ earlier
  pub has_pid : value "pid" payload ≡ some (number (show_ℤ pid) (is_zero pid))
  pub read_back : (env : Platform) → read_pid paths.pid_file env m' ≡ (ok (some pid), m')

same_path_refl : (p : AbsolutePath) → same_path p p ≡ true
same_path_refl [] = refl
same_path_refl (n ∷ p) = ground (arith, eq_refl n, same_path_refl p)

write_text-ok :
    (path : AbsolutePath) (text : String) (env : Platform) (m : Machine) (u : ⊤)
    → (write_text path text env m).0 ≡ ok u
    → (write_text path text env m).1.files path ≡ some (file text)
write_text-ok path text env m u h = ground (arith, h, same_path_refl path)

not_empty : (c : Char) (s : String) → (String.◌∷◌ c s == "") ≡ false
not_empty c s = elim (Bool-cases (String.◌∷◌ c s == "")) [
  | inl same ↦ absurd (differ ((eq_iff (String.◌∷◌ c s) "").0 same))
  | inr other ↦ other
]
  where
    differ : String.◌∷◌ c s ≡ "" → ⊥
    differ e = cc

pid_in-some :
    (path : AbsolutePath) (raw : String) (pid : ℤ) (env : Platform) (m : Machine)
    → parse_int raw ≡ some pid
    → pid_in path raw env m ≡ (ok (some pid), m)
unfolding parse_int
pid_in-some path String.[] pid env m h = cc
pid_in-some path (String.◌∷◌ c s) pid env m h = rw (not_empty c s) (rw h refl)

pid_at-file :
    (path : AbsolutePath) (text : String) (env : Platform) (m : Machine)
    → m.files path ≡ some (file text)
    → pid_at path true env m ≡ pid_in path (strip text) env m
pid_at-file path text env m h = rw h refl

read_pid-written :
    (path : AbsolutePath) (pid : ℤ) (env : Platform) (m : Machine)
    → m.files path ≡ some (file (show_ℤ pid))
    → read_pid path env m ≡ (ok (some pid), m)
unfolding read_pid
read_pid-written path pid env m h = rw h (
    pid_at-file path (show_ℤ pid) env m h
    ∙ pid_in-some path (strip (show_ℤ pid)) pid env m (parse_int-strip-show_ℤ pid))

module _ (args : StartArgs) (paths : InstancePaths) (pid : ℤ) (env : Platform) where
  -- Where a part returns, the process has been started.
  abbrev Starts : Action ℕ → Type 0
  Starts part = (m : Machine) → (part env m).0 ≡ ok 0 → Started paths pid (part env m).1

  bind-Starts :
      {A : Type 0} (part : Action A) (f : A → Action ℕ)
      → ((a : A) → Starts (f a))
      → Starts (part >>= f)
  bind-Starts part f k m h =
      let (a, _, same) = bind-returns part f env m 0 h in
      subst (λ w. Started paths pid w.1) (sym same)
        (k a (part env m).1 (ap (λ w. w.0) (sym same) ∙ h))

  if-Starts : (b : Bool) (p q : Action ℕ) → Starts p → Starts q → Starts (if b then p else q)
  if-Starts true p q h k = h
  if-Starts false p q h k = k

  started-Starts : Starts (started args paths pid)
  unfolding started success
  started-Starts m h =
      let written = write_text paths.pid_file (show_ℤ pid) in
      let (u, done, same) =
        bind-returns written (λ _. success (start_payload args paths pid)) env m 0 h in
      let m1 = (written env m).1 in
      subst (λ w. Started paths pid w.1) (sym same)
        (record {
          payload = _;
          earlier = m1.printed;
          prints = refl;
          has_pid = refl;
          read_back = λ env'.
              read_pid-written paths.pid_file pid env' _
                (write_text-ok paths.pid_file (show_ℤ pid) env m u done);
        })

  not_started-Starts : (message : String) → Starts (raise_not_started message paths)
  not_started-Starts message = bind-Starts (tail_file paths.log_file) _ λ tail m h. cc

  give_up-Starts : Starts (give_up args paths pid)
  unfolding give_up
  give_up-Starts =
      let last : Action ℕ = raise_not_started (late_message args) paths in
      let waited : Bool → Action ℕ =
        λ has_ended. (if has_ended then pure tt else kill_and_wait pid) >> last in
      bind-Starts (send_to_child pid terminate) (λ _. ask (λ env t. env.ends t pid) >>= waited)
        λ _. bind-Starts (ask (λ env t. env.ends t pid)) waited λ has_ended.
          bind-Starts (if has_ended then pure tt else kill_and_wait pid) (λ _. last)
            λ _. not_started-Starts (late_message args)

  await_port-Starts : (fuel deadline : ℕ) → Starts (await_port fuel args paths pid deadline)
  unfolding await_port
  await_port-Starts zero deadline m h = cc
  await_port-Starts (suc fuel) deadline m h =
      let again = await_port fuel args paths pid deadline in
      let round : Action ℕ = ask (λ env t. env.poll t pid) >>= after_poll args paths pid again in
      if-Starts (ltb m.now deadline) round (give_up args paths pid)
        (bind-Starts (ask (λ env t. env.poll t pid)) (after_poll args paths pid again) λ code.
          bind-Starts (exited_early paths code)
            (λ _. port_open args.host args.port >>= after_try args paths pid again)
            λ _.
              bind-Starts (port_open args.host args.port) (after_try args paths pid again)
                λ is_open.
                  if-Starts is_open (started args paths pid) (sleep 200 >> again) started-Starts
                    (bind-Starts (sleep 200) (λ _. again) λ _. await_port-Starts fuel deadline))
        give_up-Starts m h

-- What a start that returns has done: `launched` is when the process was made.
pub record StartResult (args : StartArgs) (env : Platform) (m' : Machine) : Type 0 where
  pub paths : InstancePaths
  pub pid : ℤ
  pub at_paths : instance_paths env.paths args.data_root args.slug ≡ valid paths
  pub launched : ℕ
  pub spawned :
      env.spawn launched (start_command args paths) paths.checkout (visible_devices args.gpu)
      ≡ some pid
  pub started : Started paths pid m'

ensure_instance_dirs-ok :
    (data_root slug : String) (paths : InstancePaths) (env : Platform) (m : Machine)
    → (ensure_instance_dirs data_root slug env m).0 ≡ ok paths
    → instance_paths env.paths data_root slug ≡ valid paths
unfolding ensure_instance_dirs instance_paths_of
ensure_instance_dirs-ok data_root slug paths env m h =
    let makes = λ (p : InstancePaths). make_instance_dirs p >> pure p in
    let (p, found, h1) = bind-ok (instance_paths_of data_root slug) makes env m paths h in
    let m1 = (instance_paths_of data_root slug env m).1 in
    let (u, _, h2) = bind-ok (make_instance_dirs p) (λ _. pure p) env m1 paths h1 in
    (checked-ok (instance_paths env.paths data_root slug) p env m found).0
    ∙ ap (λ q. valid q) (same_value h2)
  where
    same_value : {a b : InstancePaths} → ◌≡◌ {A = Result InstancePaths} (ok a) (ok b) → a ≡ b
    same_value e = cc

-- A start that returns has found the paths of the instance, has made a process by the command
-- for its arguments, and has printed the id that the operating system gave it; and on the
-- machine that it leaves, `read_pid` of the instance's pid file returns that id, whatever the
-- platform answers.
pub start-StartResult :
    (args : StartArgs) (env : Platform) (m : Machine)
    → (command_instance_start args env m).0 ≡ ok 0
    → StartResult args env (command_instance_start args env m).1
unfolding command_instance_start
start-StartResult args env m h =
    let waits = λ (paths : InstancePaths) (pid : ℤ) (now : ℕ).
      await_port (poll_rounds args.startup_timeout) args paths pid (now + args.startup_timeout) in
    let after = λ (paths : InstancePaths) (pid : ℤ). gets (λ m. m.now) >>= waits paths pid in
    let launches = λ (paths : InstancePaths). launch args paths >>= after paths in
    let (paths, found, same) =
      bind-returns (ensure_instance_dirs args.data_root args.slug) launches env m 0 h in
    let m1 = (ensure_instance_dirs args.data_root args.slug env m).1 in
    let h1 = sym (ap (λ w. w.0) same) ∙ h in
    let (pid, made, same1) = bind-returns (launch args paths) (after paths) env m1 0 h1 in
    let m2 = (launch args paths env m1).1 in
    let (t, is_spawned) = (launch-Gives args paths env).at m1 pid made in
    subst (λ w. StartResult args env w.1) (sym (same ∙ same1))
      (record {
        paths = paths;
        pid = pid;
        at_paths = ensure_instance_dirs-ok args.data_root args.slug paths env m found;
        launched = t;
        spawned = is_spawned;
        started =
            await_port-Starts args paths pid env (poll_rounds args.startup_timeout)
              (m2.now + args.startup_timeout) m2 (sym (ap (λ w. w.0) same1) ∙ h1);
      })
