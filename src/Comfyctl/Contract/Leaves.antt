-- ===== src/Comfyctl/Contract/Leaves.antt =====
-- The ends of the helpers of comfyctl/cli.py: what they raise, and that they print nothing.
use comfy_shell_v.Prelude.{
  ℕ, String, Bool, true, false, ◌≡◌, refl, arith, Option, List, if◌then◌else◌,
}
use comfy_shell_v.Prelude.Json.{Json}
use comfy_shell_v.Errors.Codes.{is_registered}
use comfy_shell_v.Comfyctl.Paths.{AbsolutePath}
use comfy_shell_v.Comfyctl.Machine.{
  Platform, Machine, Files, Operation, CommandFailure, Action, pure, raise, raise_if, raise_crash,
  ask, asks, gets, change, read_text, read_text_lossy, mkdir, mkdir_new, rmtree, shutil_move, sleep,
}
use comfy_shell_v.Comfyctl.Tools.{
  run_command, require_tool, port_open, ensure_port_free, unique_name, tail_file, write_manifest,
  write_extra_model_paths,
}
use comfy_shell_v.Comfyctl.Contract.{Quiet, is_known, bind-Quiet}

module _ {ℓ} {A : Type ℓ} where
  pub pure-Quiet : (a : A) → Quiet (pure a)
  pure-Quiet a = record {
    ends = λ env m. refl;
    prints_nothing = λ env m. refl;
    sends_nothing = λ env m. refl;
  }

  pub crash-Quiet : Quiet (raise_crash {A = A})
  crash-Quiet = record {
    ends = λ env m. refl;
    prints_nothing = λ env m. refl;
    sends_nothing = λ env m. refl;
  }

  pub gets-Quiet : (f : Machine → A) → Quiet (gets f)
  gets-Quiet f = record {
    ends = λ env m. refl;
    prints_nothing = λ env m. refl;
    sends_nothing = λ env m. refl;
  }

  pub ask-Quiet : (f : Platform → ℕ → A) → Quiet (ask f)
  ask-Quiet f = record {
    ends = λ env m. refl;
    prints_nothing = λ env m. refl;
    sends_nothing = λ env m. refl;
  }

  pub asks-Quiet : (f : Platform → A) → Quiet (asks f)
  asks-Quiet f = record {
    ends = λ env m. refl;
    prints_nothing = λ env m. refl;
    sends_nothing = λ env m. refl;
  }

  pub raise-Quiet : (e : CommandFailure) → is_known e ≡ true → Quiet (raise {A = A} e)
  raise-Quiet e h = record {
    ends = λ env m. h;
    prints_nothing = λ env m. refl;
    sends_nothing = λ env m. refl;
  }

  pub if-Quiet : (b : Bool) (p q : Action A) → Quiet p → Quiet q → Quiet (if b then p else q)
  if-Quiet true p q h k = h
  if-Quiet false p q h k = k

pub raise_if-Quiet : (b : Bool) (e : CommandFailure) → is_known e ≡ true → Quiet (raise_if b e)
raise_if-Quiet true e h = record {
  ends = λ env m. h;
  prints_nothing = λ env m. refl;
  sends_nothing = λ env m. refl;
}
raise_if-Quiet false e h = record {
  ends = λ env m. refl;
  prints_nothing = λ env m. refl;
  sends_nothing = λ env m. refl;
}

pub change-Quiet : (op : Operation) (f : Files → Files) → Quiet (change op f)
change-Quiet op f = record {
  ends = λ env m. ground arith;
  prints_nothing = λ env m. ground arith;
  sends_nothing = λ env m. ground arith;
}

pub read_text-Quiet : (path : AbsolutePath) → Quiet (read_text path)
read_text-Quiet path = record {
  ends = λ env m. ground arith;
  prints_nothing = λ env m. ground arith;
  sends_nothing = λ env m. ground arith;
}

pub run_command-Quiet :
    (command : List String) (cwd : Option AbsolutePath) → Quiet (run_command command cwd)
unfolding run_command is_registered
run_command-Quiet command cwd = record {
  ends = λ env m. ground arith;
  prints_nothing = λ env m. ground arith;
  sends_nothing = λ env m. ground arith;
}

pub port_open-Quiet : (host : String) (port : ℕ) → Quiet (port_open host port)
unfolding port_open is_registered
port_open-Quiet host port = record {
  ends = λ env m. ground arith;
  prints_nothing = λ env m. ground arith;
  sends_nothing = λ env m. ground arith;
}

pub require_tool-Quiet : (name layer : String) → Quiet (require_tool name layer)
unfolding require_tool is_registered
require_tool-Quiet name layer = record {
  ends = λ env m. ground arith;
  prints_nothing = λ env m. ground arith;
  sends_nothing = λ env m. ground arith;
}

pub ensure_port_free-Quiet : (host : String) (port : ℕ) → Quiet (ensure_port_free host port)
unfolding ensure_port_free is_registered
ensure_port_free-Quiet host port =
    bind-Quiet (port_open host port) _ (port_open-Quiet host port)
      λ is_open. raise_if-Quiet is_open _ refl

pub unique_name-Quiet : (prefix : String) → Quiet (unique_name prefix)
unfolding unique_name
unique_name-Quiet prefix = ask-Quiet _

pub read_text_lossy-Quiet : (path : AbsolutePath) → Quiet (read_text_lossy path)
read_text_lossy-Quiet path = record {
  ends = λ env m. ground arith;
  prints_nothing = λ env m. ground arith;
  sends_nothing = λ env m. ground arith;
}

pub tail_file-Quiet : (path : AbsolutePath) → Quiet (tail_file path)
unfolding tail_file
tail_file-Quiet path = record {
  ends = λ env m. ground arith;
  prints_nothing = λ env m. ground arith;
  sends_nothing = λ env m. ground arith;
}

pub mkdir-Quiet : (path : AbsolutePath) → Quiet (mkdir path)
mkdir-Quiet path = change-Quiet _ _

pub mkdir_new-Quiet : (path : AbsolutePath) → Quiet (mkdir_new path)
mkdir_new-Quiet path = record {
  ends = λ env m. ground arith;
  prints_nothing = λ env m. ground arith;
  sends_nothing = λ env m. ground arith;
}

pub rmtree-Quiet : (path : AbsolutePath) → Quiet (rmtree path)
rmtree-Quiet path = record {
  ends = λ env m. refl;
  prints_nothing = λ env m. refl;
  sends_nothing = λ env m. refl;
}

pub sleep-Quiet : (duration : ℕ) → Quiet (sleep duration)
sleep-Quiet duration = record {
  ends = λ env m. refl;
  prints_nothing = λ env m. refl;
  sends_nothing = λ env m. refl;
}

pub shutil_move-Quiet : (source target : AbsolutePath) → Quiet (shutil_move source target)
shutil_move-Quiet source target = record {
  ends = λ env m. ground arith;
  prints_nothing = λ env m. ground arith;
  sends_nothing = λ env m. ground arith;
}

pub write_manifest-Quiet :
    (path : AbsolutePath) (payload : Json) → Quiet (write_manifest path payload)
unfolding write_manifest
write_manifest-Quiet path payload = record {
  ends = λ env m. ground arith;
  prints_nothing = λ env m. ground arith;
  sends_nothing = λ env m. ground arith;
}

pub write_extra_model_paths-Quiet :
    (path : AbsolutePath) (roots : List String) → Quiet (write_extra_model_paths path roots)
unfolding write_extra_model_paths
write_extra_model_paths-Quiet path roots = change-Quiet _ _
