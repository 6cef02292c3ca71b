-- ===== src/Comfyctl/Sample.antt =====
-- A platform and machines to run comfyctl/cli.py on.
use comfy_shell_v.Prelude.{pos, String, true, false, none, some, List, [], ◌∷◌, ◌==◌, if◌then◌else◌}
use comfy_shell_v.Comfyctl.Catalog.{Catalog, VersionEntry, RuntimeProfile}
use comfy_shell_v.Comfyctl.Paths.{AbsolutePath, InstancePaths, layout, child}
use comfy_shell_v.Comfyctl.Machine.{
  Platform, Machine, Files, Node, file, directory, Completed, finished, parts, delivered, refused,
  url_error, same_path,
}
use comfy_shell_v.Comfyctl.Install.Prepare.{InstallArgs}
use comfy_shell_v.Comfyctl.Start.{StartArgs}
use comfy_shell_v.Comfyctl.Stop.{StopArgs}

abbrev pub done : Completed
done = record { returncode = pos 0; stdout = "abc"; stderr = "" }

abbrev pub broken : Completed
broken = record { returncode = pos 1; stdout = ""; stderr = "no" }

abbrev pub root : AbsolutePath
root = "data" ∷ "ComfyUI-Installs" ∷ "one" ∷ []

abbrev pub one : InstancePaths
one = layout root

abbrev pub staging : AbsolutePath
staging = child one.staging_dir "install-7-42"

-- What stands at the path in a list of paths
abbrev pub listed : List (AbsolutePath × Node) → Files
listed [] q = none
listed ((p, node) ∷ rest) q = if same_path p q then some node else listed rest q

abbrev with_file : AbsolutePath → Files → Files
with_file p files q = if same_path p q then some directory else files q

-- Commands do what their first words say: a clone and a virtual environment are directories.
abbrev pub commands : List String → Files → Files
commands (a ∷ b ∷ _) files =
    if b == "clone"
    then with_file (child staging "ComfyUI") files
    else (if b == "venv" then with_file (child staging ".venv") files else files)
commands _ files = files

abbrev pub plain : Platform
plain = record {
  paths = record { expanded = λ s. some (s ∷ []); resolve = λ p. p };
  absolute = λ s. s ∷ [];
  elapsed = λ t. 0;
  refuses = λ t files op. false;
  stays = λ t q. false;
  command = λ t command cwd files. (finished done, commands command files);
  which = λ t name. some name;
  kill = λ t pid signal. delivered;
  proc_cmdline = λ t pid. parts ("python" ∷ "main.py" ∷ []);
  proc_cwd = λ t pid. some one.checkout;
  resolve_strict = λ t text. some one.checkout;
  spawn = λ t command cwd gpus. some (pos 77);
  poll = λ t pid. none;
  ends = λ t pid. true;
  connect = λ t host port. refused;
  fetch = λ t url. url_error "refused";
  readable = λ t path. true;
  utc_now = λ t. "now";
  seconds = λ t. 7;
  getpid = 42;
  executable = "python";
  loads = λ text. none;
  dumps = λ value. "{}";
}

abbrev pub machine : Files → Machine
machine files = record { files = files; now = 1000; tick = 0; signals = []; printed = [] }

abbrev version : VersionEntry
version = record {
  id = "v";
  label = "V";
  channel = "stable";
  source_type = "release";
  ref = "v1";
  recommended = true;
  advanced = false;
}

abbrev profile : RuntimeProfile
profile = record {
  id = "p";
  label = "P";
  python_version = "3.12";
  torch_profile = "cu126";
  backend = some "cu126";
  recommended = true;
  advanced = false;
  packages = ("torch", "torch==2.7") ∷ ("torchvision", "tv") ∷ ("torchaudio", "ta") ∷ [];
}

abbrev pub catalog : Catalog
catalog = record {
  first_version = version;
  later_versions = [];
  first_profile = profile;
  later_profiles = [];
  rules = [];
}

abbrev pub install_args : InstallArgs
install_args = record {
  id = "i";
  slug = "one";
  data_root = "data";
  repo = "r";
  ref = "v1";
  python = "3.12";
  torch_profile = "cu126";
  python_index_url = "";
  torch_index_url = "";
  torch_find_links_url = "";
}

abbrev pub start_args : StartArgs
start_args = record {
  id = "i";
  slug = "one";
  data_root = "data";
  host = "h";
  port = 80;
  model_root = [];
  gpu = [];
  startup_timeout = 1000;
  startup_timeout_text = "1.0";
}

abbrev pub stop_args : StopArgs
stop_args = record { id = "i"; slug = "one"; data_root = "data"; timeout = 1000 }

abbrev pub same : List String → List String
same xs = xs

abbrev pub running : Machine
running = machine (listed ((one.pid_file, file "77") ∷ []))
