-- ===== src/Comfyctl/Status/Report.antt =====
-- What `command_instance_status` of comfyctl/cli.py reports of the process and the port.
use comfy_shell_v.Prelude.{
  ℕ, ℤ, String, ◌≡◌, refl, sym, ap, ◌∙◌, subst, Bool, true, false, not, Option, none, some, arith,
}
use comfy_shell_v.Comfyctl.Paths.{InstancePaths}
use comfy_shell_v.Comfyctl.Machine.{
  Platform, Machine, Result, ok, probe, Killed, delivered, not_permitted, no_process, overflow,
  Connection, accepted, refused, os_error, bad_name, bad_port, passed, exists, pure, path_exists,
  ◌>>=◌,
}
use comfy_shell_v.Comfyctl.Processes.{
  read_pid, alive_after, process_alive, process_owned_by_instance,
}
use comfy_shell_v.Comfyctl.Processes.Owner.{IsInstance, process_owned-IsInstance}
use comfy_shell_v.Comfyctl.Tools.{connected, port_open}
use comfy_shell_v.Comfyctl.Contract.{bind-returns}
use comfy_shell_v.Comfyctl.Status.{
  PortArgs, InstanceReport, alive_of, owner_of, report_of, instance_report,
}

-- What the operating system has said of a signal 0 to the process
pub data Probed (env : Platform) : Option ℤ → Bool → Type 0 where
  no_pid : Probed env none false
  is_there : (t : ℕ) (pid : ℤ) → env.kill t pid probe ≡ delivered → Probed env (some pid) true
  is_foreign : (t : ℕ) (pid : ℤ) → env.kill t pid probe ≡ not_permitted → Probed env (some pid) true
  is_gone : (t : ℕ) (pid : ℤ) → env.kill t pid probe ≡ no_process → Probed env (some pid) false

-- What the network has said of a connection
pub data Connected (env : Platform) (host : String) (port : ℕ) : Bool → Type 0 where
  answers : (t : ℕ) → env.connect t host port ≡ accepted → Connected env host port true
  silent : (t : ℕ) → env.connect t host port ≡ refused → Connected env host port false

-- What has been found out of the pid, the process, the port and the manifest, between two machines
pub record ReportIsTrue (args : PortArgs) (env : Platform) (paths : InstancePaths)
    (r : InstanceReport) (m m' : Machine) : Type 0 where
  pub has_pid : (read_pid paths.pid_file env m).0 ≡ ok r.pid
  pub probed : Probed env r.pid r.pid_process_alive
  pub alive_is_instance :
      r.process_alive ≡ true
      → (pid : ℤ) × (r.pid ≡ some pid) × (r.pid_process_alive ≡ true) × IsInstance env pid paths
  pub owner_asked :
      (pid : ℤ)
      → r.pid ≡ some pid
      → r.pid_process_alive ≡ true
      → (w : Machine) × ((process_owned_by_instance pid paths env w).0 ≡ ok r.process_alive)
  pub connected : Connected env args.host args.port r.port_open
  pub port_has_one : r.port_open ≡ true → (r.port_listening ≡ not r.port_in_use_by_other)
  pub closed_port_has_none :
      r.port_open ≡ false → (r.port_listening ≡ false) × (r.port_in_use_by_other ≡ false)
  pub listening_is_alive : r.port_listening ≡ true → r.process_alive ≡ true
  pub other_is_not_alive : r.port_in_use_by_other ≡ true → r.process_alive ≡ false
  pub has_manifest : r.manifest_exists ≡ exists m'.files paths.manifest

same_answer : {a b : Bool} → ◌≡◌ {A = Result Bool} (ok a) (ok b) → a ≡ b
same_answer e = cc

alive_after-Probed :
    (env : Platform) (t : ℕ) (pid : ℤ) (k : Killed) (b : Bool) (m : Machine)
    → env.kill t pid probe ≡ k
    → (alive_after k env m).0 ≡ ok b
    → Probed env (some pid) b
alive_after-Probed env t pid delivered b m e h =
    subst (Probed env (some pid)) (same_answer h) (is_there t pid e)
alive_after-Probed env t pid not_permitted b m e h =
    subst (Probed env (some pid)) (same_answer h) (is_foreign t pid e)
alive_after-Probed env t pid no_process b m e h =
    subst (Probed env (some pid)) (same_answer h) (is_gone t pid e)
alive_after-Probed env t pid overflow b m e h = cc

alive_of-Probed :
    (env : Platform) (pid : Option ℤ) (b : Bool) (m : Machine)
    → (alive_of pid env m).0 ≡ ok b
    → Probed env pid b
unfolding process_alive
alive_of-Probed env none b m h = subst (Probed env none) (same_answer h) no_pid
alive_of-Probed env (some pid) b m h =
    alive_after-Probed env m.tick pid (env.kill m.tick pid probe) b (passed env m) refl h

connected-Connected :
    (env : Platform) (t : ℕ) (host : String) (port : ℕ) (c : Connection) (b : Bool) (m : Machine)
    → env.connect t host port ≡ c
    → (connected host port c env m).0 ≡ ok b
    → Connected env host port b
connected-Connected env t host port accepted b m e h =
    subst (Connected env host port) (same_answer h) (answers t e)
connected-Connected env t host port refused b m e h =
    subst (Connected env host port) (same_answer h) (silent t e)
connected-Connected env t host port (os_error text) b m e h = cc
connected-Connected env t host port (bad_name text) b m e h = cc
connected-Connected env t host port bad_port b m e h = cc

port_open-Connected :
    (host : String) (port : ℕ) (env : Platform) (m : Machine) (b : Bool)
    → (port_open host port env m).0 ≡ ok b
    → Connected env host port b
unfolding port_open
port_open-Connected host port env m b h =
    connected-Connected env m.tick host port (env.connect m.tick host port) b (passed env m) refl h

owner_of-IsInstance :
    (paths : InstancePaths) (pid : Option ℤ) (is_alive owned : Bool) (env : Platform) (m : Machine)
    → (owner_of paths pid is_alive env m).0 ≡ ok owned
    → owned ≡ true
    → (p : ℤ) × (pid ≡ some p) × (is_alive ≡ true) × IsInstance env p paths
owner_of-IsInstance paths none is_alive owned env m h t = absurd (ground (arith, t, same_answer h))
owner_of-IsInstance paths (some p) false owned env m h t = absurd (ground (arith, t, same_answer h))
owner_of-IsInstance paths (some p) true owned env m h t =
    (p, refl, refl, process_owned-IsInstance p paths env m (h ∙ ap (λ b. ok b) t))

owner_of-asked :
    (paths : InstancePaths) (pid : Option ℤ) (is_alive owned : Bool) (env : Platform) (m : Machine)
    → (owner_of paths pid is_alive env m).0 ≡ ok owned
    → (p : ℤ) → pid ≡ some p
    → is_alive ≡ true
    → (w : Machine) × ((process_owned_by_instance p paths env w).0 ≡ ok owned)
owner_of-asked paths none is_alive owned env m h p e t = cc
owner_of-asked paths (some q) false owned env m h p e t = cc
owner_of-asked paths (some q) true owned env m h p e t =
    (m, subst (λ x. (process_owned_by_instance x paths env m).0 ≡ ok owned) (same e) h)
  where
    same : {a b : ℤ} → some a ≡ some b → a ≡ b
    same e = cc

report_is_true :
    (args : PortArgs) (env : Platform) (m m' m'' m4 : Machine) (paths : InstancePaths)
    (pid : Option ℤ) (is_alive owned is_open : Bool)
    → (read_pid paths.pid_file env m).0 ≡ ok pid
    → Probed env pid is_alive
    → (owner_of paths pid is_alive env m'').0 ≡ ok owned
    → Connected env args.host args.port is_open
    → ReportIsTrue args env paths
        (report_of pid is_alive owned is_open (exists m4.files paths.manifest))
        m
        m4
report_is_true args env m m' m'' m4 paths pid is_alive owned is_open at_pid at_process at_owner
      at_port =
    record {
      has_pid = at_pid;
      probed = at_process;
      alive_is_instance = λ t. owner_of-IsInstance paths pid is_alive owned env m'' at_owner t;
      owner_asked = λ p e t. owner_of-asked paths pid is_alive owned env m'' at_owner p e t;
      connected = at_port;
      port_has_one = λ t. ground arith;
      closed_port_has_none = λ t. (ground arith, ground arith);
      listening_is_alive = λ t. ground arith;
      other_is_not_alive = λ t. ground arith;
      has_manifest = refl;
    }

same_report : {a b : InstanceReport} → ◌≡◌ {A = Result InstanceReport} (ok a) (ok b) → a ≡ b
same_report e = cc

-- A status reports the id in the pid file; that process as there just as the operating system
-- has answered a signal 0 to it, where a refused permission counts as there, and as not there
-- without an id; a process as alive only where it is there, works in the resolved checkout of
-- the instance and runs a main.py, and as process_owned_by_instance has answered where it is
-- there; the port as open just as a connection to the host and the port has ended; an open
-- port as the instance's or as another's and not both, and a closed one as neither; a port as
-- the instance's only where the process is alive and as another's only where it is not; and
-- the manifest as the files have it.
pub instance_report-ReportIsTrue :
    (args : PortArgs) (paths : InstancePaths) (env : Platform) (m : Machine) (r : InstanceReport)
    → (instance_report args paths env m).0 ≡ ok r
    → ReportIsTrue args env paths r m (instance_report args paths env m).1
unfolding instance_report
instance_report-ReportIsTrue args paths env m r h =
    let last = λ (pid : Option ℤ) (is_alive owned is_open : Bool).
      path_exists paths.manifest >>= λ has_manifest.
      pure (report_of pid is_alive owned is_open has_manifest) in
    let ports = λ (pid : Option ℤ) (is_alive owned : Bool).
      port_open args.host args.port >>= last pid is_alive owned in
    let owners =
      λ (pid : Option ℤ) (is_alive : Bool). owner_of paths pid is_alive >>= ports pid is_alive in
    let rest = λ (pid : Option ℤ). alive_of pid >>= owners pid in
    let (pid, at_pid, s1) = bind-returns (read_pid paths.pid_file) rest env m r h in
    let m1 = (read_pid paths.pid_file env m).1 in
    let h1 = sym (ap (λ w. w.0) s1) ∙ h in
    let (is_alive, at_process, s2) = bind-returns (alive_of pid) (owners pid) env m1 r h1 in
    let m2 = (alive_of pid env m1).1 in
    let h2 = sym (ap (λ w. w.0) s2) ∙ h1 in
    let (owned, at_owner, s3) =
      bind-returns (owner_of paths pid is_alive) (ports pid is_alive) env m2 r h2 in
    let m3 = (owner_of paths pid is_alive env m2).1 in
    let h3 = sym (ap (λ w. w.0) s3) ∙ h2 in
    let (is_open, at_port, s4) =
      bind-returns (port_open args.host args.port) (last pid is_alive owned) env m3 r h3 in
    let m4 = (port_open args.host args.port env m3).1 in
    let all = s1 ∙ s2 ∙ s3 ∙ s4 in
    let told =
      report_is_true args env m m1 m2 m4 paths pid is_alive owned is_open at_pid
        (alive_of-Probed env pid is_alive m1 at_process) at_owner
        (port_open-Connected args.host args.port env m3 is_open at_port) in
    subst (λ w. ReportIsTrue args env paths r m w) (sym (ap (λ w. w.1) all))
      (subst (λ x. ReportIsTrue args env paths x m m4) (same_report (sym (ap (λ w. w.0) all) ∙ h))
        told)
