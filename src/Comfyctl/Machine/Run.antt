-- ===== src/Comfyctl/Machine/Run.antt =====
-- Actions of one run of comfyctl, as cli.py makes them: they return or raise.

use comfy_shell_v.Prelude.{
  ℕ, ℤ, suc, ◌+◌, String, Bool, true, Option, some, List, [], ◌∷◌, ◌++◌, not, ◌&&◌, if◌then◌else◌,
  ⊤,
}
use comfy_shell_v.Prelude.Json.{Fields, str, bool, field}
use comfy_shell_v.Comfyctl.Paths.{AbsolutePath, is_at_or_above}
use comfy_shell_v.Comfyctl.Machine.Printed.{sorted_fields}
use comfy_shell_v.Comfyctl.Machine.FileTree.{
  Files, Node, file, binary, exists, is_dir, removed, written, with_dir, moved, base_name,
}
use comfy_shell_v.Comfyctl.Machine.Outside.{
  Platform, Signal, Operation, make_dir, write, move, unlink,
}

-- `now` is the clock in milliseconds, `signals` what the run has sent, oldest last, and `printed`
-- the objects it has printed, newest first.
pub record Machine : Type 0 where
  pub files : Files
  pub now : ℕ
  pub tick : ℕ
  pub signals : List (ℤ × Signal)
  pub printed : List Fields

pub record CommandFailure : Type 0 where
  pub exit_code : ℕ
  pub error_code : String
  pub message : String
  pub layer : String
  pub log_path : Option String
  pub stderr_tail : Option String

-- `failed` is CommandFailure, `value_error` a ValueError, `crash` any other exception, and
-- `exhausted` a loop that has used up its fuel.
pub data Result {ℓ} (A : Type ℓ) : Type ℓ where
  ok : A → Result A
  failed : CommandFailure → Result A
  value_error : (text : String) → Result A
  crash : Result A
  exhausted : Result A

abbrev pub Action {ℓ} : Type ℓ → Type ℓ
Action A = Platform → Machine → Result A × Machine

module _ {ℓ} {A : Type ℓ} where
  abbrev pub pure : A → Action A
  pure a env m = (ok a, m)

  abbrev pub raise : CommandFailure → Action A
  raise failure env m = (failed failure, m)

  abbrev pub raise_value_error : String → Action A
  raise_value_error text env m = (value_error text, m)

  abbrev pub raise_crash : Action A
  raise_crash env m = (crash, m)

  abbrev pub out_of_fuel : Action A
  out_of_fuel env m = (exhausted, m)

  abbrev pub gets : (Machine → A) → Action A
  gets f env m = (ok (f m), m)

-- what the platform gives without a tick
abbrev pub asks {ℓ} : {A : Type ℓ} → (Platform → A) → Action A
asks f env m = (ok (f env), m)

-- the machine after a call of the platform
abbrev pub passed : Platform → Machine → Machine
passed env m = record m { now = m.now + env.elapsed m.tick; tick = suc m.tick }

-- an answer of the platform, which takes time and uses up a tick
abbrev pub ask {ℓ} : {A : Type ℓ} → (Platform → ℕ → A) → Action A
ask f env m = (ok (f env m.tick), passed env m)

module _ {ℓ κ} {A : Type ℓ} {B : Type κ} where
  abbrev pub continue : Result A → (A → Action B) → Action B
  continue (ok a) f env m = f a env m
  continue (failed failure) f env m = (failed failure, m)
  continue (value_error text) f env m = (value_error text, m)
  continue crash f env m = (crash, m)
  continue exhausted f env m = (exhausted, m)

  infixl 5 ◌>>=◌ ◌>>◌
  abbrev pub ◌>>=◌ : Action A → (A → Action B) → Action B
  ◌>>=◌ body f env m = let (r, m') = body env m in continue r f env m'

  abbrev pub ◌>>◌ : Action A → Action B → Action B
  body >> k = body >>= λ _. k

-- `try: body finally: cleanup`, where an exception of the cleanup takes the place of the body's end
abbrev pub finally_do {ℓ} : {A : Type ℓ} → Action A → Action ⊤ → Action A
finally_do body cleanup env m =
    let (r, m') = body env m in
    let (c, m'') = cleanup env m' in continue c (λ _ _ m. (r, m)) env m''

-- `if condition: raise CommandFailure(...)`
abbrev pub raise_if : Bool → CommandFailure → Action ⊤
raise_if condition failure env m = (if condition then failed failure else ok tt, m)

-- a change of the files that the operating system may refuse with an OSError
abbrev pub change : Operation → (Files → Files) → Action ⊤
change op f env m =
    if env.refuses m.tick m.files op
    then (crash, passed env m)
    else (ok tt, record (passed env m) { files = f m.files })

-- `path.exists()`
abbrev pub path_exists : AbsolutePath → Action Bool
path_exists path = gets (λ m. exists m.files path)

-- `path.read_text(encoding="utf-8")`: UnicodeDecodeError is a ValueError
abbrev pub text_of : Option Node → Action String
text_of (some (file text)) = pure text
text_of (some (binary lossy)) = raise_value_error "'utf-8' codec can't decode the file"
text_of _ = raise_crash

abbrev pub read_text : AbsolutePath → Action String
read_text path env m = text_of (m.files path) env m

-- `path.read_text(encoding="utf-8", errors="replace")`
abbrev pub lossy_text_of : Option Node → Action String
lossy_text_of (some (file text)) = pure text
lossy_text_of (some (binary lossy)) = pure lossy
lossy_text_of _ = raise_crash

abbrev pub read_text_lossy : AbsolutePath → Action String
read_text_lossy path env m = lossy_text_of (m.files path) env m

-- `path.write_text(text, encoding="utf-8")`
abbrev pub write_text : AbsolutePath → String → Action ⊤
write_text path text = change (write path) (written path (file text))

-- `path.mkdir(parents=True, exist_ok=True)` and with `exist_ok=False`
abbrev pub mkdir : AbsolutePath → Action ⊤
mkdir path = change (make_dir path) (with_dir path)

abbrev pub mkdir_new : AbsolutePath → Action ⊤
mkdir_new path env m = (if exists m.files path then raise_crash else mkdir path) env m

-- `path.unlink(missing_ok=True)`
abbrev pub unlink_if_there : AbsolutePath → Action ⊤
unlink_if_there path = change (unlink path) (removed (λ q. is_at_or_above path q))

-- `shutil.rmtree(path, ignore_errors=True)`, which leaves what it cannot remove
abbrev pub rmtree : AbsolutePath → Action ⊤
rmtree path env m = (
  ok tt,
  record (passed env m) {
    files = removed (λ q. is_at_or_above path q && not (env.stays m.tick q)) m.files;
  },
)

-- `shutil.move(source, target)`: into the target where that is a directory
abbrev pub move_to : AbsolutePath → AbsolutePath → Action ⊤
move_to source target env m =
    (if exists m.files source
        then change (move source target) (moved source target)
        else raise_crash)
      env m

abbrev pub shutil_move : AbsolutePath → AbsolutePath → Action ⊤
shutil_move source target env m =
    (if is_dir m.files target
        then (let inner = target ++ base_name source ∷ [] in
            if exists m.files inner then raise_crash else move_to source inner)
        else move_to source target)
      env m

-- `time.sleep` for so many milliseconds or more
abbrev pub sleep : ℕ → Action ⊤
sleep duration env m =
    (ok tt, record (passed env m) { now = m.now + duration + env.elapsed m.tick })

-- `os.kill(pid, signal)` with a signal other than 0, where it has been delivered
abbrev pub record_signal : ℤ → Signal → Action ⊤
record_signal pid signal env m = (ok tt, record m { signals = (pid, signal) ∷ m.signals })

-- `emit`, which prints the keys in order
unfoldable pub emit : Fields → Action ⊤
unfolding sorted_fields
emit payload env m = (ok tt, record m { printed = sorted_fields payload ∷ m.printed })

-- `success`, with the time as the platform writes it
unfoldable pub success : Fields → Action ℕ
unfolding emit
success rest = do
  ts ← ask (λ env t. env.utc_now t)
  emit (field "ok" (bool true) (field "ts" (str ts) rest))
  pure 0
