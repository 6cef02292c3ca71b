-- ===== src/Comfyctl/Paths.antt =====
-- comfyctl/paths.py: where an instance is installed. An absolute path is the list of its names; the
-- making of directories is left out.
pub mod Within
pub mod Tests
use Prim.Native.String
use Prim.Native.Char.{code}
use comfy_shell_v.Prelude.{
  ℕ, zero, suc, String, Bool, true, false, not, ◌&&◌, ◌||◌, Option, none, some, List, [], ◌∷◌, ◌++◌,
  ◌==◌, eqb, leb, if◌then◌else◌,
}

abbrev pub AbsolutePath : Type 0
AbsolutePath = List String

-- `Path(s).expanduser()`, where it is absolute, and `path.resolve()`
pub record FileSystem : Type 0 where
  pub expanded : String → Option AbsolutePath
  pub resolve : AbsolutePath → AbsolutePath

-- A ValueError has its text.
pub data Checked (A : Type 0) : Type 0 where
  valid : A → Checked A
  value_error : (text : String) → Checked A

abbrev and_then : {A : Type 0} {B : Type 0} → Checked A → (A → Checked B) → Checked B
and_then (valid a) f = f a
and_then (value_error text) f = value_error text

abbrev is_letter_or_digit : ℕ → Bool
is_letter_or_digit c = leb 48 c && leb c 57 || leb 65 c && leb c 90 || leb 97 c && leb c 122

-- `[a-zA-Z0-9_.-]`
abbrev is_slug_char : ℕ → Bool
is_slug_char c = is_letter_or_digit c || eqb c 95 || eqb c 46 || eqb c 45

-- `[a-zA-Z0-9_.-]{0,limit}`, to the end
abbrev is_slug_tail : ℕ → String → Bool
is_slug_tail limit String.[] = true
is_slug_tail zero (String.◌∷◌ c s) = false
is_slug_tail (suc limit) (String.◌∷◌ c s) = is_slug_char (code c) && is_slug_tail limit s

-- `SLUG_PATTERN.fullmatch`
abbrev pub is_slug : String → Bool
is_slug String.[] = false
is_slug (String.◌∷◌ c s) = is_letter_or_digit (code c) && is_slug_tail 79 s

unfoldable pub validate_slug : String → Checked String
validate_slug slug =
    if is_slug slug
    then valid slug
    else value_error "instance slug must match ^[a-zA-Z0-9][a-zA-Z0-9_.-]{0,79}$"

abbrev resolved : FileSystem → Option AbsolutePath → Checked AbsolutePath
resolved fs none = value_error "data root must be an absolute path"
resolved fs (some path) = valid (fs.resolve path)

unfoldable pub resolve_data_root : FileSystem → String → Checked AbsolutePath
resolve_data_root fs data_root = resolved fs (fs.expanded data_root)

pub record ComfyPaths : Type 0 where
  pub data_root : AbsolutePath
  pub installs_dir : AbsolutePath
  pub shared_dir : AbsolutePath
  pub default_models_root : AbsolutePath
  pub default_input_root : AbsolutePath
  pub default_output_root : AbsolutePath
  pub download_cache_dir : AbsolutePath

-- `path / name`
abbrev pub child : AbsolutePath → String → AbsolutePath
child path name = path ++ name ∷ []

abbrev pub paths_of : AbsolutePath → ComfyPaths
paths_of root = record {
  data_root = root;
  installs_dir = child root "ComfyUI-Installs";
  shared_dir = child root "ComfyUI-Shared";
  default_models_root = child (child root "ComfyUI-Shared") "models";
  default_input_root = child (child root "ComfyUI-Shared") "input";
  default_output_root = child (child root "ComfyUI-Shared") "output";
  download_cache_dir = child (child root "ComfyUI-Cache") "download-cache";
}

unfoldable pub comfy_paths : FileSystem → String → Checked ComfyPaths
unfolding resolve_data_root
comfy_paths fs data_root = and_then (resolve_data_root fs data_root) (λ root. valid (paths_of root))

pub record InstancePaths : Type 0 where
  pub root : AbsolutePath
  pub checkout : AbsolutePath
  pub venv : AbsolutePath
  pub manifest : AbsolutePath
  pub extra_model_paths : AbsolutePath
  pub lock : AbsolutePath
  pub run_dir : AbsolutePath
  pub pid_file : AbsolutePath
  pub logs_dir : AbsolutePath
  pub log_file : AbsolutePath
  pub staging_dir : AbsolutePath
  pub previous_dir : AbsolutePath

-- `path == other or path in other.parents`
abbrev pub is_at_or_above : AbsolutePath → AbsolutePath → Bool
is_at_or_above [] other = true
is_at_or_above (n ∷ path) [] = false
is_at_or_above (n ∷ path) (m ∷ other) = n == m && is_at_or_above path other

abbrev pub layout : AbsolutePath → InstancePaths
layout root = record {
  root = root;
  checkout = child root "ComfyUI";
  venv = child root ".venv";
  manifest = child root "manifest.json";
  extra_model_paths = child root "extra_model_paths.yaml";
  lock = child root "instance.lock";
  run_dir = child root ".run";
  pid_file = child (child root ".run") "comfyui.pid";
  logs_dir = child root "logs";
  log_file = child (child root "logs") "comfyui.log";
  staging_dir = child root ".staging";
  previous_dir = child root ".previous";
}

-- The test of `instance_paths` on the resolved root
abbrev pub place : AbsolutePath → AbsolutePath → Checked InstancePaths
place installs_root root =
    if is_at_or_above installs_root root
    then valid (layout root)
    else value_error "instance root escaped installs directory"

unfoldable pub instance_paths : FileSystem → String → String → Checked InstancePaths
unfolding validate_slug comfy_paths
instance_paths fs data_root slug = and_then (validate_slug slug) (λ valid_slug.
    and_then (comfy_paths fs data_root) (λ paths.
      place (fs.resolve paths.installs_dir) (fs.resolve (child paths.installs_dir valid_slug))))
