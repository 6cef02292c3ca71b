-- ===== src/Comfyctl/Status/Logs.antt =====
-- What `command_instance_logs` of comfyctl/cli.py prints.
use comfy_shell_v.Prelude.{
  ℕ, arith, pos, suc, ◌≡◌, refl, sym, ap, ◌∙◌, subst, String, Option, none, some, List, [], ◌∷◌,
  is_some,
}
use comfy_shell_v.Prelude.Json.{Fields, array, str, cons}
use comfy_shell_v.Comfyctl.Machine.Printed.{sorted, sorted_items}
use comfy_shell_v.Prelude.Lines.{split_lines}
use comfy_shell_v.Comfyctl.Paths.{InstancePaths, valid, instance_paths}
use comfy_shell_v.Comfyctl.Machine.{
  Platform, Machine, Node, file, directory, binary, ok, success, path_exists, lossy_text_of,
  read_text_lossy, ◌>>=◌,
}
use comfy_shell_v.Comfyctl.Tools.{instance_paths_of}
use comfy_shell_v.Comfyctl.Contract.{value, bind-ok, bind-returns}
use comfy_shell_v.Comfyctl.Contract.Directories.{checked-ok}
use comfy_shell_v.Comfyctl.Status.{
  LogsArgs, items_of, last_lines, log_payload, logs_at, command_instance_logs,
}
use comfy_shell_v.Comfyctl.Status.Tail.{LogTail, all_lines, last_lines-LogTail}

-- The lines of the log file, which has none where it is missing
abbrev pub lines_of : Option Node → List String
lines_of (some (file text)) = split_lines text
lines_of (some (binary lossy)) = split_lines lossy
lines_of _ = []

-- One object has been printed, and its lines are the last ones of the log file.
pub record LogsPrinted (n : ℕ) (args : LogsArgs) (env : Platform) (m m' : Machine) : Type 0 where
  pub paths : InstancePaths
  pub payload : Fields
  pub shown : List String
  pub at_paths : instance_paths env.paths args.data_root args.slug ≡ valid paths
  pub one_object : m'.printed ≡ payload ∷ m.printed
  pub has_lines : value "lines" payload ≡ some (array (items_of shown))
  pub is_tail : LogTail n (lines_of (m.files paths.log_file)) shown

sorted_items-items_of : (shown : List String) → sorted_items (items_of shown) ≡ items_of shown
unfolding sorted
sorted_items-items_of [] = refl
sorted_items-items_of (line ∷ lines) = ap (λ vs. cons (str line) vs) (sorted_items-items_of lines)

with_lines :
    (args : LogsArgs) (n : ℕ) (paths : InstancePaths) (env : Platform) (m : Machine)
    (shown : List String)
    → instance_paths env.paths args.data_root args.slug ≡ valid paths
    → LogTail n (lines_of (m.files paths.log_file)) shown
    → LogsPrinted n args env m (success (log_payload args paths shown) env m).1
unfolding success
with_lines args n paths env m shown found h = record {
  paths = paths;
  payload = _;
  shown = shown;
  at_paths = found;
  one_object = refl;
  has_lines = ap (λ vs. some (array vs)) (sorted_items-items_of shown);
  is_tail = h;
}

not_read :
    (node : Option Node) (text : String) (env : Platform) (m : Machine)
    → node ≡ some directory
    → (lossy_text_of node env m).0 ≡ ok text
    → ⊥
not_read none text env m e h = cc
not_read (some (file t)) text env m e h = cc
not_read (some (binary t)) text env m e h = cc
not_read (some directory) text env m e h = cc

module _ (args : LogsArgs) (n : ℕ) (paths : InstancePaths) (env : Platform) (m : Machine)
    (found : instance_paths env.paths args.data_root args.slug ≡ valid paths)
    (asked : args.tail ≡ pos (suc n)) where
  of_text :
      (text : String)
      → lines_of (m.files paths.log_file) ≡ split_lines text
      → LogsPrinted
          (suc n)
          args
          env
          m
          (success (log_payload args paths (last_lines args.tail (split_lines text))) env m).1
  of_text text e = with_lines args (suc n) paths env m _ found (
      subst
        (λ t. LogTail (suc n) (lines_of (m.files paths.log_file)) (last_lines t (split_lines text)))
        (sym asked)
        (subst (λ l. LogTail (suc n) l (last_lines (pos (suc n)) (split_lines text))) (sym e)
          (last_lines-LogTail n (split_lines text))))

  by_node :
      (node : Option Node)
      → m.files paths.log_file ≡ node
      → (logs_at args paths (is_some node) env m).0 ≡ ok 0
      → LogsPrinted (suc n) args env m (logs_at args paths (is_some node) env m).1
  by_node none e h = with_lines args (suc n) paths env m [] found (rw e (all_lines (omega arith)))
  by_node (some (file text)) e h = rw e (of_text text (rw e refl))
  by_node (some (binary lossy)) e h = rw e (of_text lossy (rw e refl))
  by_node (some directory) e h =
      let show = λ (text : String).
        success (log_payload args paths (last_lines args.tail (split_lines text))) in
      let (text, read, _) = bind-ok (read_text_lossy paths.log_file) show env m 0 h in
      absurd (not_read (m.files paths.log_file) text env m e read)

-- With a tail of n from 1 on, a run of logs that returns has printed one object whose lines
-- are those of the instance's log file: all of them where there are at most n, else the last
-- n; and none where there is no file.
pub logs-LogsPrinted :
    (args : LogsArgs) (n : ℕ) (env : Platform) (m : Machine)
    → args.tail ≡ pos (suc n)
    → (command_instance_logs args env m).0 ≡ ok 0
    → LogsPrinted (suc n) args env m (command_instance_logs args env m).1
unfolding command_instance_logs instance_paths_of
logs-LogsPrinted args n env m asked h =
    let rest = λ (paths : InstancePaths). path_exists paths.log_file >>= logs_at args paths in
    let (paths, found, same) =
      bind-returns (instance_paths_of args.data_root args.slug) rest env m 0 h in
    let (at_paths, unchanged) =
      checked-ok (instance_paths env.paths args.data_root args.slug) paths env m found in
    let runs = same ∙ ap (λ w. rest paths env w) unchanged in
    subst (λ w. LogsPrinted (suc n) args env m w.1) (sym runs)
      (by_node args n paths env m at_paths asked (m.files paths.log_file) refl
        (subst (λ w. w.0 ≡ ok 0) runs h))
