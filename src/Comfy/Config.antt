-- ===== src/Comfy/Config.antt =====
-- The part of the settings that the service reads (app/core/config/sections.py, ComfySettings),
-- with the catalog, and the paths of app/services/comfy_paths.py.
use comfy_shell_v.Prelude.{ℕ, String, ◌==◌, if◌then◌else◌}
use comfy_shell_v.Prelude.Text.{join_path}
use comfy_shell_v.Comfyctl.Catalog.{Catalog}

pub record ComfySettings : Type 0 where
  pub data_root : String
  pub instance_port_start : ℕ
  pub repo_url : String
  pub default_ref : String
  pub python_version : String
  pub torch_profile : String
  pub bind_host : String
  pub python_index_url : String
  pub torch_index_url : String
  pub torch_find_links_url : String

-- `resolve` is `str(Path(p).expanduser().resolve())`, `executable` is `sys.executable`, and
-- `service_root` the directory of the program.
pub record Config : Type 0 where
  pub settings : ComfySettings
  pub catalog : Catalog
  pub service_root : String
  pub executable : String
  pub resolve : String → String

unfoldable pub resolved_data_root : Config → String → String
resolved_data_root cfg configured =
    if configured == "" then cfg.service_root else cfg.resolve configured

unfoldable pub instance_install_root : Config → String → String → String
instance_install_root cfg data_root slug =
    join_path (join_path (cfg.resolve data_root) "ComfyUI-Installs") slug

unfoldable pub default_model_root_path : Config → String → String
default_model_root_path cfg data_root =
    join_path (join_path (cfg.resolve data_root) "ComfyUI-Shared") "models"
