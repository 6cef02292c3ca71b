-- ===== src/Comfyctl/Processes.antt =====
-- The part of comfyctl/cli.py on processes: the pid file, and which process is the instance's.
pub mod Owner
pub mod PidText
use Prim.Native.Char.{code}
use Prim.Native.String
use Prim.Native.String.{◌++◌ as ◌<>◌}
use comfy_shell_v.Prelude.{
  ℕ, ℤ, pos, negsuc, suc, zero, ◌+◌, ◌*◌, ◌-◌, String, Bool, true, false, not, ◌&&◌, ◌||◌, Option,
  none, some, List, [], ◌∷◌, any, filterb, ◌==◌, eqb, leb, get_or, if◌then◌else◌, is_some, ⊤,
}
use comfy_shell_v.Prelude.Lines.{strip, split_lines, split_words, split_at}
use comfy_shell_v.Prelude.Text.{is_blank}
use comfy_shell_v.Comfyctl.Paths.{AbsolutePath, InstancePaths}
use comfy_shell_v.Comfyctl.Machine.{
  Signal, probe, terminate, Killed, delivered, no_process, not_permitted, overflow, ProcFile,
  absent, unreadable, parts, Completed, Action, pure, raise, raise_crash, ask, path_exists,
  read_text, record_signal, same_path, ◌>>=◌, ◌>>◌,
}
use comfy_shell_v.Comfyctl.Tools.{
  command_failure, exit_runtime, path_text, show_ℤ, run_command, succeeded,
}

-- `int` of digits with single underscores between them; the flag says that a digit stands before
unfoldable pub digits_value : ℕ → Bool → String → Option ℕ
digits_value acc true String.[] = some acc
digits_value acc false String.[] = none
digits_value acc after (String.◌∷◌ c s) =
    let is_digit = leb 48 (code c) && leb (code c) 57 in
    let rest = digits_value (if is_digit then acc * 10 + (code c - 48) else acc) is_digit s in
    if is_digit || (eqb (code c) 95 && after) then rest else none

abbrev pub negated : ℕ → ℤ
negated zero = pos 0
negated (suc n) = negsuc n

abbrev pub map_option : {A : Type 0} {B : Type 0} → (A → B) → Option A → Option B
map_option f none = none
map_option f (some a) = some (f a)

-- `int(raw)` of a text without space around it, of ASCII characters and at most 4300 digits
unfoldable pub parse_int : String → Option ℤ
unfolding digits_value
parse_int String.[] = none
parse_int (String.◌∷◌ c s) =
    if eqb (code c) 45
    then map_option negated (digits_value 0 false s)
    else (if eqb (code c) 43
        then map_option pos (digits_value 0 false s)
        else map_option pos (digits_value 0 false (String.◌∷◌ c s)))

abbrev pub pid_of : AbsolutePath → Option ℤ → Action (Option ℤ)
pid_of pid_file none = raise (
    command_failure exit_runtime "PID_INVALID" ("invalid pid file: " <> path_text pid_file)
      "process")
pid_of pid_file (some pid) = pure (some pid)

abbrev pub pid_in : AbsolutePath → String → Action (Option ℤ)
pid_in pid_file raw = if raw == "" then pure none else pid_of pid_file (parse_int raw)

abbrev pub pid_at : AbsolutePath → Bool → Action (Option ℤ)
pid_at pid_file false = pure none
pid_at pid_file true = do text ← read_text pid_file; pid_in pid_file (strip text)

unfoldable pub read_pid : AbsolutePath → Action (Option ℤ)
unfolding path_text strip parse_int
read_pid pid_file = do is_there ← path_exists pid_file; pid_at pid_file is_there

-- OverflowError is not caught.
abbrev pub alive_after : Killed → Action Bool
alive_after delivered = pure true
alive_after not_permitted = pure true
alive_after no_process = pure false
alive_after overflow = raise_crash

unfoldable pub process_alive : ℤ → Action Bool
process_alive pid = do answer ← ask (λ env t. env.kill t pid probe); alive_after answer

-- `os.kill(pid, signal.SIGTERM)`, whose exceptions nothing catches
abbrev pub signalled : ℤ → Signal → Killed → Action ⊤
signalled pid signal delivered = record_signal pid signal
signalled pid signal _ = raise_crash

unfoldable pub send_signal : ℤ → Signal → Action ⊤
send_signal pid signal = do
  answer ← ask (λ env t. env.kill t pid signal)
  signalled pid signal answer

abbrev pub ps_words : Completed → Option (List String)
ps_words result =
    if not (succeeded result) || is_blank result.stdout
    then none
    else some (split_words result.stdout)

abbrev pub cmdline_of : ℤ → ProcFile → Action (Option (List String))
cmdline_of pid (parts items) = pure (some (filterb (λ item. not (item == "")) items))
cmdline_of pid unreadable = raise_crash
cmdline_of pid absent = do
  result ← run_command ("ps" ∷ "-p" ∷ show_ℤ pid ∷ "-o" ∷ "command=" ∷ []) none
  pure (ps_words result)

unfoldable pub process_cmdline : ℤ → Action (Option (List String))
unfolding show_ℤ run_command is_blank split_words
process_cmdline pid = do proc ← ask (λ env t. env.proc_cmdline t pid); cmdline_of pid proc

-- The text behind the `n` of the first line that begins with one
abbrev name_line : List String → Option String
name_line [] = none
name_line (String.[] ∷ lines) = name_line lines
name_line ((String.◌∷◌ c line) ∷ lines) = if eqb (code c) 110 then some line else name_line lines

abbrev pub resolved : Option String → Action (Option AbsolutePath)
resolved none = pure none
resolved (some line) = ask (λ env t. env.resolve_strict t line)

abbrev pub lsof_cwd : Completed → Action (Option AbsolutePath)
lsof_cwd result =
    if succeeded result then resolved (name_line (split_lines result.stdout)) else pure none

abbrev pub cwd_by_lsof : ℤ → Option String → Action (Option AbsolutePath)
cwd_by_lsof pid none = pure none
cwd_by_lsof pid (some tool) = do
  result ← run_command ("lsof" ∷ "-a" ∷ "-p" ∷ show_ℤ pid ∷ "-d" ∷ "cwd" ∷ "-Fn" ∷ []) none
  lsof_cwd result

abbrev pub cwd_of : ℤ → Option AbsolutePath → Action (Option AbsolutePath)
cwd_of pid (some cwd) = pure (some cwd)
cwd_of pid none = do tool ← ask (λ env t. env.which t "lsof"); cwd_by_lsof pid tool

unfoldable pub process_cwd : ℤ → Action (Option AbsolutePath)
unfolding show_ℤ run_command split_lines
process_cwd pid = do proc ← ask (λ env t. env.proc_cwd t pid); cwd_of pid proc

abbrev last_or_empty : List String → String
last_or_empty [] = ""
last_or_empty (s ∷ []) = s
last_or_empty (_ ∷ s ∷ ss) = last_or_empty (s ∷ ss)

-- `Path(part).name`
unfoldable pub path_name : String → String
unfolding split_at
path_name part =
    last_or_empty (filterb (λ name. not (name == "" || name == ".")) (split_at 47 part))

unfoldable pub has_main : List String → Bool
unfolding path_name
has_main cmdline = any (λ part. part == "main.py" || path_name part == "main.py") cmdline

abbrev pub is_at : AbsolutePath → List String → Option AbsolutePath → Bool
is_at cwd cmdline none = false
is_at cwd cmdline (some checkout) = same_path cwd checkout && has_main cmdline

abbrev pub compared : InstancePaths → Option AbsolutePath → Option (List String) → Action Bool
compared paths (some cwd) (some cmdline) = do
  checkout ← ask (λ env t. env.resolve_strict t (path_text paths.checkout))
  pure (is_at cwd cmdline checkout)
compared paths _ _ = pure false

abbrev pub owned_if_alive : ℤ → InstancePaths → Bool → Action Bool
owned_if_alive pid paths false = pure false
owned_if_alive pid paths true = do
  cwd ← process_cwd pid
  cmdline ← process_cmdline pid
  compared paths cwd cmdline

unfoldable pub process_owned_by_instance : ℤ → InstancePaths → Action Bool
unfolding path_text has_main process_cwd process_cmdline process_alive
process_owned_by_instance pid paths = do
  is_alive ← process_alive pid
  owned_if_alive pid paths is_alive
