-- ===== src/Comfyctl/Witnesses.antt =====
-- What is proved of comfyctl/cli.py, at concrete inputs.
use comfy_shell_v.Prelude.{
  ℕ, pos, filterb, ◌≢◌, String, true, false, not, Option, none, some, [], ◌∷◌, ◌++◌, ◌≡◌, refl, ap,
  arith, if◌then◌else◌,
}
use comfy_shell_v.Prelude.Json.{Json, Fields, null, str, bool, object, field, end}
use comfy_shell_v.Prelude.{any, ◌==◌}
use comfy_shell_v.Comfyctl.Machine.{parts}
use comfy_shell_v.Prelude.Lines.{split_lines}
use comfy_shell_v.Uow.{Env}
use comfy_shell_v.Errors.Service.{PrintsRegistered}
use comfy_shell_v.Errors.Service.CommandLine.{RunsMain, RunsMain-PrintsRegistered}
use comfy_shell_v.Fixture.{quiet_env}
use comfy_shell_v.Comfyctl.Paths.{
  AbsolutePath, child, is_at_or_above, valid, layout, instance_paths,
}
use comfy_shell_v.Comfyctl.Machine.{
  Platform, Machine, Files, finished, ok, file, directory, exists, success,
}
use comfy_shell_v.Comfyctl.Requirements.{is_torch_requirement, requirements_without_torch}
use comfy_shell_v.Comfyctl.Requirements.Lines.{or_blank, requirements_without_torch_lem}
use comfy_shell_v.Comfyctl.Install.Prepare.{prepare}
use comfy_shell_v.Comfyctl.Install.Promote.{promote_install}
use comfy_shell_v.Comfyctl.Install.Promote.Moves.{IsTree}
use comfy_shell_v.Comfyctl.Install.Promote.Result.{Replaced, promote_install-Replaced}
use comfy_shell_v.Comfyctl.Install.{command_instance_install}
use comfy_shell_v.Comfyctl.Install.Keeps.{checkout_place, Confined}
use comfy_shell_v.Comfyctl.Install.Outcome.Kept.{install-failure_keeps}
use comfy_shell_v.Comfyctl.Install.Outcome.Lock.{Removes}
use comfy_shell_v.Comfyctl.Install.Outcome.Locked.{install-lock}
use comfy_shell_v.Comfyctl.Stop.{command_instance_stop}
use comfy_shell_v.Comfyctl.Stop.Signals.{SignalOf, stop-SignalOf}
use comfy_shell_v.Comfyctl.Status.{
  PortArgs, LogsArgs, InstanceReport, instance_report, command_instance_logs,
}
use comfy_shell_v.Comfyctl.Status.Report.{ReportIsTrue, instance_report-ReportIsTrue}
use comfy_shell_v.Comfyctl.Status.Logs.{LogsPrinted, logs-LogsPrinted}
use comfy_shell_v.Comfyctl.Main.{main, instance_install, instance_stop}
use comfy_shell_v.Comfyctl.Contract.Rounds.{poll_rounds_lem}
use comfy_shell_v.Comfyctl.Start.{await_port, command_instance_start}
use comfy_shell_v.Comfyctl.Start.PidFile.{StartResult, start-StartResult}
use comfy_shell_v.Comfyctl.Stop.{await_end}
use comfy_shell_v.Comfyctl.Machine.{exhausted, refused, accepted}
use comfy_shell_v.Prelude.{◌≤◌, ltb}
use comfy_shell_v.Comfyctl.Contract.Exit.{Ended, main-Ended}
use comfy_shell_v.Comfyctl.Sample.{
  plain, machine, catalog, listed, one, root, staging, install_args, start_args, stop_args, same,
  running, broken,
}

main-Ended_example :
    let (r, m) = main same catalog (instance_stop stop_args) plain running in Ended r [] m.printed
main-Ended_example = main-Ended same catalog (instance_stop stop_args) plain running

stop-SignalOf_example :
    SignalOf stop_args plain running [] (command_instance_stop stop_args plain running).1.signals
stop-SignalOf_example = stop-SignalOf stop_args plain running

requirements_without_torch_lem_example :
    (split_lines (requirements_without_torch "torch\nnumpy")
      ≡ or_blank (filterb (λ line. not (is_torch_requirement line)) (split_lines "torch\nnumpy")))
    × (requirements_without_torch (requirements_without_torch "torch\nnumpy")
        ≡ requirements_without_torch "torch\nnumpy")
requirements_without_torch_lem_example = requirements_without_torch_lem "torch\nnumpy"

-- A pid file that names a process of another program, for which `stop` prints an error
abbrev foreign : Platform
foreign = record plain { proc_cmdline = λ t pid. parts ("python" ∷ "other.py" ∷ []) }

abbrev pid_invalid : Fields
pid_invalid = field "error_code" (str "PID_INVALID") (
    field "layer" (str "process") (
      field "log_path" null (
        field "message" (str "pid file points to a process outside this instance: 77")
          (field "ok" (bool false) (field "stderr_tail" null (field "ts" (str "now") end))))))

-- The executor runs `comfyctl instance stop`, and `json.loads` reads what that prints.
abbrev stopping : Env
stopping = record quiet_env {
  exec = λ t args. some (record {
    exit_code = pos 5;
    stdout = if any (λ a. a == "stop") args then "printed" else "";
    stderr = "";
  });
  loads = λ text. if text == "printed" then some (object pid_invalid) else none;
}

abbrev read_as : String → Option Json
read_as text = if text == "printed" then some (object pid_invalid) else none

read_as-pid_invalid :
    (text : String) (payload : Fields)
    → read_as text ≡ some (object payload)
    → pid_invalid ≡ payload
read_as-pid_invalid text payload h = ground (arith, h)

stopping-RunsMain : RunsMain same catalog stopping
unfolding main command_instance_stop success
stopping-RunsMain = record {
  printed = λ t args result payload ran read. (
    instance_stop stop_args,
    foreign,
    running,
    refl,
    ap (λ p. p ∷ []) (read_as-pid_invalid result.stdout payload read),
  );
}

RunsMain-PrintsRegistered_example : PrintsRegistered stopping
RunsMain-PrintsRegistered_example =
    RunsMain-PrintsRegistered same catalog stopping stopping-RunsMain

-- Every command fails, and leaves the files as they are.
abbrev failing : Platform
failing = record plain { command = λ t command cwd files. (finished broken, files) }

failing-Confined : Confined failing root
failing-Confined = record { kept = λ t command cwd files q inside outside. refl }

one_paths : instance_paths plain.paths "data" "one" ≡ valid (layout root)
unfolding instance_paths
one_paths = refl

abbrev installed : Files
installed = listed ((one.checkout, directory) ∷ [])

failing_run :
    (main same catalog (instance_install install_args) failing (machine installed)).0 ≡ ok 4
unfolding main command_instance_install prepare success
failing_run = refl

install-failure_keeps_example :
    (main same catalog (instance_install install_args) failing (machine installed)).1.files
      one.checkout
    ≡ installed one.checkout
install-failure_keeps_example =
    install-failure_keeps same catalog install_args root checkout_place [] failing
      (machine installed) 4 failing-Confined refl one_paths failing_run (λ e. cc)

plain-Removes : Removes plain
plain-Removes = record { unlinks = λ t files path. refl; clears = λ t q. refl }

abbrev locked : Machine
locked = machine (listed ((one.lock, file "1") ∷ []))

install-lock_example :
    let (r, m) = main same catalog (instance_install install_args) plain locked in
    (locked.files one.lock ≡ none → m.files one.lock ≡ none)
    × (exists locked.files one.lock ≡ true
        → (r ≢ ok 0) × (m.files one.lock ≡ locked.files one.lock))
install-lock_example =
    install-lock same catalog install_args root plain locked plain-Removes one_paths

-- Everything stands but what is below the directory of the previous install.
abbrev previous : AbsolutePath
previous = child (child root ".previous") "install-7-42"

abbrev everything : Files
everything q = if is_at_or_above previous q then none else some directory

still_below :
    (p q : AbsolutePath) (name : String)
    → is_at_or_above p q ≡ true
    → is_at_or_above p (q ++ name ∷ []) ≡ true
still_below [] q name h = refl
still_below (n ∷ p) [] name h = cc
still_below (n ∷ p) (k ∷ q) name h = ground (arith, still_below p q name)

missing_below : (q : AbsolutePath) → exists everything q ≡ false → is_at_or_above previous q ≡ true
missing_below q h = ground arith

everything-IsTree : IsTree everything
everything-IsTree = record {
  parents = λ q name h. rw (still_below previous q name (missing_below q h)) refl;
}

promote_run :
    (promote_install
      (layout root)
      (child staging "ComfyUI")
      (child staging ".venv")
      plain
      (machine everything)).0
    ≡ ok tt
unfolding promote_install
promote_run = refl

promote_install-Replaced_example :
    Replaced root "install-7-42" everything
      (promote_install
        (layout root)
        (child staging "ComfyUI")
        (child staging ".venv")
        plain
        (machine everything)).1.files
promote_install-Replaced_example =
    promote_install-Replaced root "install-7-42" plain (machine everything) tt everything-IsTree
      promote_run

abbrev port_args : PortArgs
port_args = record { id = "i"; slug = "one"; data_root = "data"; host = "h"; port = 80 }

abbrev its_report : InstanceReport
its_report = record {
  manifest_exists = false;
  pid = some (pos 77);
  process_alive = true;
  pid_process_alive = true;
  pid_owner_valid = true;
  port_open = false;
  port_listening = false;
  port_in_use_by_other = false;
}

report_run : (instance_report port_args one plain running).0 ≡ ok its_report
unfolding instance_report
report_run = refl

instance_report-ReportIsTrue_example :
    ReportIsTrue port_args plain one its_report running
      (instance_report port_args one plain running).1
instance_report-ReportIsTrue_example =
    instance_report-ReportIsTrue port_args one plain running its_report report_run

abbrev logs_args : LogsArgs
logs_args = record { id = "i"; slug = "one"; data_root = "data"; tail = pos 2 }

abbrev logging : Machine
logging = machine (listed ((one.log_file, file "a\nb\nc\n") ∷ []))

logs_run : (command_instance_logs logs_args plain logging).0 ≡ ok 0
unfolding command_instance_logs success
logs_run = refl

logs-LogsPrinted_example :
    LogsPrinted 2 logs_args plain logging (command_instance_logs logs_args plain logging).1
logs-LogsPrinted_example = logs-LogsPrinted logs_args 1 plain logging refl logs_run

poll_rounds_lem_example :
    ((await_port 7 start_args one (pos 77) 2000 plain running).0 ≢ exhausted)
    × ((more : ℕ)
        → 7 ≤ more
        → await_port more start_args one (pos 77) 2000 plain running
          ≡ await_port 7 start_args one (pos 77) 2000 plain running)
    × ((await_end 7 stop_args one (pos 77) 2000 plain running).0 ≢ exhausted)
    × ((more : ℕ)
        → 7 ≤ more
        → await_end more stop_args one (pos 77) 2000 plain running
          ≡ await_end 7 stop_args one (pos 77) 2000 plain running)
poll_rounds_lem_example = poll_rounds_lem start_args stop_args one (pos 77) plain running

-- The port answers from the twentieth call on.
abbrev starting : Platform
starting = record plain { connect = λ t host port. if ltb t 20 then refused else accepted }

abbrev ready_files : Machine
ready_files =
    machine
      (listed ((one.checkout, directory) ∷ (child (child one.venv "bin") "python", file "") ∷ []))

start_run : (command_instance_start start_args starting ready_files).0 ≡ ok 0
unfolding command_instance_start success
start_run = refl

start-StartResult_example :
    StartResult start_args starting (command_instance_start start_args starting ready_files).1
start-StartResult_example = start-StartResult start_args starting ready_files start_run
