-- ===== src/Comfyctl/Contract/Directories.antt =====
-- The ends of the helpers of comfyctl/cli.py and comfyctl/paths.py that find and make directories.
use comfy_shell_v.Prelude.{String, ◌≡◌, refl}
use comfy_shell_v.Comfyctl.Paths.{Checked, valid, value_error, InstancePaths, ComfyPaths}
use comfy_shell_v.Comfyctl.Machine.{Platform, Machine, ok, mkdir}
use comfy_shell_v.Comfyctl.Tools.{
  instance_paths_of, ensure_data_dirs, make_instance_dirs, comfy_paths_of, make_data_dirs,
  ensure_instance_dirs, checked,
}
use comfy_shell_v.Comfyctl.Contract.{Quiet, bind-Quiet}
use comfy_shell_v.Comfyctl.Contract.Leaves.{pure-Quiet, mkdir-Quiet}

checked-Quiet : {A : Type 0} (c : Checked A) → Quiet (checked c)
checked-Quiet (valid a) = pure-Quiet a
checked-Quiet (value_error text) = record {
  ends = λ env m. refl;
  prints_nothing = λ env m. refl;
  sends_nothing = λ env m. refl;
}

pub instance_paths_of-Quiet : (data_root slug : String) → Quiet (instance_paths_of data_root slug)
unfolding instance_paths_of
instance_paths_of-Quiet data_root slug = record {
  ends = λ env m. (checked-Quiet _).ends env m;
  prints_nothing = λ env m. (checked-Quiet _).prints_nothing env m;
  sends_nothing = λ env m. (checked-Quiet _).sends_nothing env m;
}

pub make_instance_dirs-Quiet : (paths : InstancePaths) → Quiet (make_instance_dirs paths)
unfolding make_instance_dirs
make_instance_dirs-Quiet paths = bind-Quiet (mkdir paths.root) _ (mkdir-Quiet paths.root) λ _.
    bind-Quiet (mkdir paths.run_dir) _ (mkdir-Quiet paths.run_dir) λ _.
      bind-Quiet (mkdir paths.logs_dir) _ (mkdir-Quiet paths.logs_dir) λ _.
        bind-Quiet (mkdir paths.staging_dir) _ (mkdir-Quiet paths.staging_dir)
          λ _. mkdir-Quiet paths.previous_dir

pub ensure_instance_dirs-Quiet :
    (data_root slug : String) → Quiet (ensure_instance_dirs data_root slug)
unfolding ensure_instance_dirs
ensure_instance_dirs-Quiet data_root slug =
    bind-Quiet (instance_paths_of data_root slug) _ (instance_paths_of-Quiet data_root slug)
      λ paths.
        bind-Quiet (make_instance_dirs paths) _ (make_instance_dirs-Quiet paths)
          λ _. pure-Quiet paths

data_dirs-Quiet : (paths : ComfyPaths) → Quiet (make_data_dirs paths)
unfolding make_data_dirs
data_dirs-Quiet paths =
    bind-Quiet (mkdir paths.installs_dir) _ (mkdir-Quiet paths.installs_dir) λ _.
      bind-Quiet (mkdir paths.default_models_root) _ (mkdir-Quiet paths.default_models_root) λ _.
        bind-Quiet (mkdir paths.default_input_root) _ (mkdir-Quiet paths.default_input_root) λ _.
          bind-Quiet (mkdir paths.default_output_root) _ (mkdir-Quiet paths.default_output_root)
            λ _. mkdir-Quiet paths.download_cache_dir

comfy_paths_of-Quiet : (data_root : String) → Quiet (comfy_paths_of data_root)
unfolding comfy_paths_of
comfy_paths_of-Quiet data_root = record {
  ends = λ env m. (checked-Quiet _).ends env m;
  prints_nothing = λ env m. (checked-Quiet _).prints_nothing env m;
  sends_nothing = λ env m. (checked-Quiet _).sends_nothing env m;
}

pub ensure_data_dirs-Quiet : (data_root : String) → Quiet (ensure_data_dirs data_root)
unfolding ensure_data_dirs
ensure_data_dirs-Quiet data_root =
    bind-Quiet (comfy_paths_of data_root) _ (comfy_paths_of-Quiet data_root)
      λ paths. bind-Quiet (make_data_dirs paths) _ (data_dirs-Quiet paths) λ _. pure-Quiet paths

pub checked-ok :
    (c : Checked InstancePaths) (paths : InstancePaths) (env : Platform) (m : Machine)
    → (checked c env m).0 ≡ ok paths
    → (c ≡ valid paths) × ((checked c env m).1 ≡ m)
checked-ok (valid a) paths env m h = (cc, refl)
checked-ok (value_error text) paths env m h = cc
