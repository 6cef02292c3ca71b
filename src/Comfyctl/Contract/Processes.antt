-- ===== src/Comfyctl/Contract/Processes.antt =====
-- The ends of the part of comfyctl/cli.py on processes.
use comfy_shell_v.Prelude.{ℤ, String, Bool, true, false, refl, Option, none, some, List, ◌==◌}
use comfy_shell_v.Prelude.Lines.{strip}
use comfy_shell_v.Errors.Codes.{is_registered}
use comfy_shell_v.Comfyctl.Paths.{AbsolutePath, InstancePaths}
use comfy_shell_v.Comfyctl.Machine.{
  Signal, probe, Killed, delivered, no_process, not_permitted, overflow, ProcFile, absent,
  unreadable, parts, ask, path_exists, read_text,
}
use comfy_shell_v.Comfyctl.Tools.{run_command, succeeded, path_text}
use comfy_shell_v.Comfyctl.Processes.{
  pid_of, pid_at, read_pid, parse_int, alive_after, process_alive, signalled, send_signal,
  cmdline_of, ps_words, process_cmdline, cwd_of, cwd_by_lsof, resolved, process_cwd, compared,
  owned_if_alive, is_at, process_owned_by_instance,
}
use comfy_shell_v.Comfyctl.Contract.{Quiet, Silent, Quiet-Silent, bind-Quiet, bind-Silent}
use comfy_shell_v.Comfyctl.Contract.Leaves.{
  pure-Quiet, crash-Quiet, gets-Quiet, ask-Quiet, raise-Quiet, if-Quiet, read_text-Quiet,
  run_command-Quiet,
}

pid_of-Quiet : (pid_file : AbsolutePath) (pid : Option ℤ) → Quiet (pid_of pid_file pid)
unfolding is_registered
pid_of-Quiet pid_file none = raise-Quiet _ refl
pid_of-Quiet pid_file (some pid) = pure-Quiet _

pid_at-Quiet : (pid_file : AbsolutePath) (is_there : Bool) → Quiet (pid_at pid_file is_there)
pid_at-Quiet pid_file false = pure-Quiet _
pid_at-Quiet pid_file true = bind-Quiet (read_text pid_file) _ (read_text-Quiet pid_file) λ text.
    if-Quiet (strip text == "") _ _ (pure-Quiet none)
      (pid_of-Quiet pid_file (parse_int (strip text)))

pub read_pid-Quiet : (pid_file : AbsolutePath) → Quiet (read_pid pid_file)
unfolding read_pid
read_pid-Quiet pid_file =
    bind-Quiet (path_exists pid_file) _ (gets-Quiet _) λ is_there. pid_at-Quiet pid_file is_there

alive_after-Quiet : (answer : Killed) → Quiet (alive_after answer)
alive_after-Quiet delivered = pure-Quiet true
alive_after-Quiet no_process = pure-Quiet false
alive_after-Quiet not_permitted = pure-Quiet true
alive_after-Quiet overflow = crash-Quiet

pub process_alive-Quiet : (pid : ℤ) → Quiet (process_alive pid)
unfolding process_alive
process_alive-Quiet pid =
    bind-Quiet (ask (λ env t. env.kill t pid probe)) _ (ask-Quiet _)
      λ answer. alive_after-Quiet answer

signalled-Silent :
    (pid : ℤ) (signal : Signal) (answer : Killed) → Silent (signalled pid signal answer)
signalled-Silent pid signal delivered = record {
  ends = λ env m. refl;
  prints_nothing = λ env m. refl;
}
signalled-Silent pid signal no_process = Quiet-Silent crash-Quiet
signalled-Silent pid signal not_permitted = Quiet-Silent crash-Quiet
signalled-Silent pid signal overflow = Quiet-Silent crash-Quiet

pub send_signal-Silent : (pid : ℤ) (signal : Signal) → Silent (send_signal pid signal)
unfolding send_signal
send_signal-Silent pid signal =
    bind-Silent (ask (λ env t. env.kill t pid signal)) _ (Quiet-Silent (ask-Quiet _))
      λ answer. signalled-Silent pid signal answer

cmdline_of-Quiet : (pid : ℤ) (proc : ProcFile) → Quiet (cmdline_of pid proc)
cmdline_of-Quiet pid (parts items) = pure-Quiet _
cmdline_of-Quiet pid unreadable = crash-Quiet
cmdline_of-Quiet pid absent =
    bind-Quiet (run_command _ none) _ (run_command-Quiet _ none)
      λ result. pure-Quiet (ps_words result)

process_cmdline-Quiet : (pid : ℤ) → Quiet (process_cmdline pid)
unfolding process_cmdline
process_cmdline-Quiet pid =
    bind-Quiet (ask (λ env t. env.proc_cmdline t pid)) _ (ask-Quiet _)
      λ proc. cmdline_of-Quiet pid proc

resolved-Quiet : (line : Option String) → Quiet (resolved line)
resolved-Quiet none = pure-Quiet none
resolved-Quiet (some line) = ask-Quiet _

cwd_of-Quiet : (pid : ℤ) (cwd : Option AbsolutePath) → Quiet (cwd_of pid cwd)
cwd_of-Quiet pid (some cwd) = pure-Quiet _
cwd_of-Quiet pid none =
    bind-Quiet (ask (λ env t. env.which t "lsof")) _ (ask-Quiet _) λ tool. by_lsof tool
  where
    by_lsof : (tool : Option String) → Quiet (cwd_by_lsof pid tool)
    by_lsof none = pure-Quiet none
    by_lsof (some tool) =
        bind-Quiet (run_command _ none) _ (run_command-Quiet _ none)
          λ result. if-Quiet (succeeded result) _ _ (resolved-Quiet _) (pure-Quiet none)

process_cwd-Quiet : (pid : ℤ) → Quiet (process_cwd pid)
unfolding process_cwd
process_cwd-Quiet pid =
    bind-Quiet (ask (λ env t. env.proc_cwd t pid)) _ (ask-Quiet _) λ cwd. cwd_of-Quiet pid cwd

compared-Quiet :
    (paths : InstancePaths) (cwd : Option AbsolutePath) (cmdline : Option (List String))
    → Quiet (compared paths cwd cmdline)
compared-Quiet paths none cmdline = pure-Quiet false
compared-Quiet paths (some cwd) none = pure-Quiet false
compared-Quiet paths (some cwd) (some cmdline) =
    bind-Quiet (ask (λ env t. env.resolve_strict t (path_text paths.checkout))) _ (ask-Quiet _)
      λ checkout. pure-Quiet (is_at cwd cmdline checkout)

owned_if_alive-Quiet :
    (pid : ℤ) (paths : InstancePaths) (is_alive : Bool) → Quiet (owned_if_alive pid paths is_alive)
owned_if_alive-Quiet pid paths false = pure-Quiet false
owned_if_alive-Quiet pid paths true = bind-Quiet (process_cwd pid) _ (process_cwd-Quiet pid) λ cwd.
    bind-Quiet (process_cmdline pid) _ (process_cmdline-Quiet pid)
      λ cmdline. compared-Quiet paths cwd cmdline

pub process_owned_by_instance-Quiet :
    (pid : ℤ) (paths : InstancePaths) → Quiet (process_owned_by_instance pid paths)
unfolding process_owned_by_instance
process_owned_by_instance-Quiet pid paths =
    bind-Quiet (process_alive pid) _ (process_alive-Quiet pid)
      λ is_alive. owned_if_alive-Quiet pid paths is_alive
