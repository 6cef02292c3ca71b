-- ===== src/Fixture.antt =====
-- A small environment and configuration, for the tests of the modules.
pub mod TextOrder
pub mod Codec
use Prim.Native.String
use comfy_shell_v.Prelude.{pos, refl, true, none, some, [], ◌*◌}
use comfy_shell_v.Prelude.Json.{bool, object, field, end}
use comfy_shell_v.Prelude.Decimal.{show_ℕ}
use comfy_shell_v.Db.{empty}
use comfy_shell_v.Uow.{Env, World}
use comfy_shell_v.Uow.Rules.{IsQuiet}
use comfy_shell_v.Comfyctl.Catalog.{Catalog, VersionEntry, RuntimeProfile}
use comfy_shell_v.Comfy.Config.{Config}

-- Every command answers that it went well.
abbrev pub quiet_env : Env
quiet_env = record {
  uuid = λ t. String.◌++◌ "id-" (show_ℕ t);
  now = λ t. t * 10;
  others = λ t db. db;
  unordered = λ t ids. ids;
  exec = λ t args. some (record { exit_code = pos 0; stdout = "{}"; stderr = "" });
  violation = λ constraint. constraint;
  loads = λ s. some (object (field "ok" (bool true) end));
  repr = λ v. "...";
  isoformat = show_ℕ;
  fromisoformat = λ s. none;
  dumps = λ fs. "";
  b64encode = λ s. s;
  b64decode = λ s. some s;
  request_id = "req-1";
  text_before = λ a b. true;
}

pub quiet_env-IsQuiet : IsQuiet quiet_env
quiet_env-IsQuiet t db = refl

abbrev pub start_world : World
start_world = record { committed = empty; session = empty; tick = 0 }

abbrev verified : VersionEntry
verified = record {
  id = "v1";
  label = "one";
  channel = "stable";
  source_type = "snapshot";
  ref = "abc";
  recommended = true;
  advanced = true;
}

abbrev cpu_profile : RuntimeProfile
cpu_profile = record {
  id = "cpu";
  label = "CPU";
  python_version = "3.12";
  torch_profile = "cpu";
  backend = some "cpu";
  recommended = true;
  advanced = true;
  packages = [];
}

abbrev pub catalog : Catalog
catalog = record {
  first_version = verified;
  later_versions = [];
  first_profile = cpu_profile;
  later_profiles = [];
  rules = [];
}

abbrev pub cfg : Config
cfg = record {
  settings = record {
    data_root = "";
    instance_port_start = 8188;
    repo_url = "repo";
    default_ref = "";
    python_version = "3.12";
    torch_profile = "requirements";
    bind_host = "127.0.0.1";
    python_index_url = "";
    torch_index_url = "";
    torch_find_links_url = "";
  };
  catalog = catalog;
  service_root = "/srv";
  executable = "python";
  resolve = λ p. p;
}
