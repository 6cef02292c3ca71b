-- ===== src/Comfyctl/Install/Promote.antt =====
-- `promote_install` of comfyctl/cli.py.
pub mod Moves
pub mod Steps
pub mod Result
use comfy_shell_v.Prelude.{String, Bool, List, if◌then◌else◌, ⊤}
use comfy_shell_v.Comfyctl.Paths.{AbsolutePath, InstancePaths, child}
use comfy_shell_v.Comfyctl.Machine.{Action, pure, path_exists, mkdir_new, shutil_move, ◌>>=◌, ◌>>◌}
use comfy_shell_v.Comfyctl.Tools.{unique_name}

-- `if source.exists(): shutil.move(source, previous_root / name)`
unfoldable pub move_if_there : AbsolutePath → AbsolutePath → Action ⊤
move_if_there source target = do
  is_there ← path_exists source
  (if is_there then shutil_move source target else pure tt)

-- The moves of the loop behind the first
abbrev pub move_rest_away : InstancePaths → AbsolutePath → Action ⊤
move_rest_away paths previous_root = do
  move_if_there paths.venv (child previous_root ".venv")
  move_if_there paths.manifest (child previous_root "manifest.json")

-- The three moves of the loop
unfoldable pub move_away : InstancePaths → AbsolutePath → Action ⊤
unfolding move_if_there
move_away paths previous_root = do
  move_if_there paths.checkout (child previous_root "ComfyUI")
  move_rest_away paths previous_root

-- The moves out of the staging directory
abbrev pub move_staged : InstancePaths → AbsolutePath → AbsolutePath → Action ⊤
move_staged paths staging_checkout staging_venv = do
  shutil_move staging_checkout paths.checkout
  shutil_move staging_venv paths.venv

-- What follows the choice of the name
abbrev pub promote_by : InstancePaths → AbsolutePath → AbsolutePath → AbsolutePath → Action ⊤
promote_by paths staging_checkout staging_venv previous_root = do
  mkdir_new previous_root
  move_away paths previous_root
  move_staged paths staging_checkout staging_venv

unfoldable pub promote_install : InstancePaths → AbsolutePath → AbsolutePath → Action ⊤
unfolding move_away unique_name
promote_install paths staging_checkout staging_venv = do
  name ← unique_name "install"
  promote_by paths staging_checkout staging_venv (child paths.previous_dir name)
