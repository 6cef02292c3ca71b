-- ===== src/Comfyctl/Machine/Outside.antt =====
-- What a run of comfyctl gets from the operating system and from other programs, each answer numbered
-- by the call's tick.
use comfy_shell_v.Prelude.{ℕ, ℤ, String, Bool, Option, List}
use comfy_shell_v.Prelude.Json.{Json}
use comfy_shell_v.Comfyctl.Paths.{AbsolutePath, FileSystem}
use comfy_shell_v.Comfyctl.Machine.FileTree.{Files}

-- `subprocess.CompletedProcess`
pub record Completed : Type 0 where
  pub returncode : ℤ
  pub stdout : String
  pub stderr : String

-- how `subprocess.run` with `text=True` ends: FileNotFoundError, another OSError such as
-- PermissionError, and UnicodeDecodeError of the output, with its text, are exceptions.
pub data CommandEnd : Type 0 where
  finished : Completed → CommandEnd
  file_not_found : CommandEnd
  other_os_error : CommandEnd
  not_text : (text : String) → CommandEnd

-- a change of the files that is asked of the operating system
pub data Operation : Type 0 where
  make_dir : AbsolutePath → Operation
  write : AbsolutePath → Operation
  move : AbsolutePath → AbsolutePath → Operation
  unlink : AbsolutePath → Operation

-- `probe` is the signal 0.
pub data Signal : Type 0 where
  probe terminate kill : Signal

-- how `os.kill` ends
pub data Killed : Type 0 where
  delivered no_process not_permitted overflow : Killed

-- how `connect_ex` ends: `os_error` and `bad_name` have the text of the OSError and of the ValueError
pub data Connection : Type 0 where
  accepted refused : Connection
  os_error : (text : String) → Connection
  bad_name : (text : String) → Connection
  bad_port : Connection

-- a file below /proc, as the parts of its bytes between the zeros
pub data ProcFile : Type 0 where
  absent unreadable : ProcFile
  parts : List String → ProcFile

-- an HTTP answer's status, or the text of a URLError or of a ValueError
pub data HttpAnswer : Type 0 where
  status : ℕ → HttpAnswer
  url_error : (reason : String) → HttpAnswer
  bad_url : (text : String) → HttpAnswer
  other_error : HttpAnswer

pub record Platform : Type 0 where
  pub paths : FileSystem
  -- `Path(text).expanduser().resolve()`
  pub absolute : String → AbsolutePath
  -- the time that a call takes, in milliseconds
  pub elapsed : ℕ → ℕ
  -- whether the operating system refuses a change, and what `rmtree` cannot remove
  pub refuses : ℕ → Files → Operation → Bool
  pub stays : ℕ → AbsolutePath → Bool
  -- `subprocess.run`, and the files that the command leaves
  pub command : ℕ → List String → Option AbsolutePath → Files → CommandEnd × Files
  -- `shutil.which`
  pub which : ℕ → String → Option String
  -- `os.kill`, and the process's files below /proc
  pub kill : ℕ → ℤ → Signal → Killed
  pub proc_cmdline : ℕ → ℤ → ProcFile
  pub proc_cwd : ℕ → ℤ → Option AbsolutePath
  -- `Path(text).resolve(strict=True)`, where `none` is an OSError
  pub resolve_strict : ℕ → String → Option AbsolutePath
  -- `Popen` with a CUDA_VISIBLE_DEVICES, where `none` is an OSError; `poll`; and whether
  -- `wait(timeout=3)` returns
  pub spawn : ℕ → List String → AbsolutePath → Option String → Option ℤ
  pub poll : ℕ → ℤ → Option ℤ
  pub ends : ℕ → ℤ → Bool
  -- `connect_ex` and `urlopen`
  pub connect : ℕ → String → ℕ → Connection
  pub fetch : ℕ → String → HttpAnswer
  -- `os.access(path, os.R_OK)`
  pub readable : ℕ → AbsolutePath → Bool
  -- `utc_now()`, `int(time.time())` and `os.getpid()`
  pub utc_now : ℕ → String
  pub seconds : ℕ → ℕ
  pub getpid : ℕ
  -- `sys.executable`
  pub executable : String
  -- `json.loads`, and `json.dumps` with an indent and sorted keys
  pub loads : String → Option Json
  pub dumps : Json → String
