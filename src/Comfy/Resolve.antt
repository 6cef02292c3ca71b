-- ===== src/Comfy/Resolve.antt =====
-- `_resolve_comfy_ref` and `_resolve_runtime` of app/services/comfy_service.py.
use Prim.Native.String
use comfy_shell_v.Prelude.{String, ◌&&◌, ◌||◌, Option, none, some, ◌==◌, is_some, if◌then◌else◌}
use comfy_shell_v.Prelude.Json.{Fields, end, field, str}
use comfy_shell_v.Uow.{Action, pure, raise, raise_if, ◌>>◌}
use comfy_shell_v.Comfyctl.Catalog.{
  VersionEntry, RuntimeProfile, version_by_id, runtime_profile_by_id, default_version,
}
use comfy_shell_v.Comfy.Config.{Config}

abbrev pub invalid_field : String → String → Fields
invalid_field name message = field "field" (str name) (field "message" (str message) end)

-- `x or default` of an optional text, where an empty text is false
abbrev pub or_default : Option String → String → String
or_default none default = default
or_default (some s) default = if s == "" then default else s

known_ref : String → Option VersionEntry → Action String
known_ref version_id (some v) = pure v.ref
known_ref version_id none =
    raise "REQUEST_INVALID"
      (invalid_field "comfy_version_id" (String.◌++◌ "unknown comfy_version_id: " version_id))

-- The part of `_resolve_comfy_ref` below its first test
pub chosen_ref : Config → Option String → Option String → Action String
unfolding known_ref
chosen_ref cfg (some version_id) comfy_ref =
    known_ref version_id (version_by_id cfg.catalog version_id)
chosen_ref cfg none (some comfy_ref) = pure comfy_ref
chosen_ref cfg none none = pure (
    if cfg.settings.default_ref == ""
    then (default_version cfg.catalog).ref
    else cfg.settings.default_ref)

unfoldable pub resolve_comfy_ref : Config → Option String → Option String → Action String
unfolding chosen_ref
resolve_comfy_ref cfg comfy_version_id comfy_ref = do
  raise_if (is_some comfy_version_id && is_some comfy_ref) "REQUEST_INVALID"
      (invalid_field "comfy_ref" "comfy_version_id and comfy_ref cannot be used together")
  chosen_ref cfg comfy_version_id comfy_ref

known_profile : String → Option RuntimeProfile → Action (String × String)
known_profile profile_id (some p) = pure (p.python_version, p.torch_profile)
known_profile profile_id none =
    raise "REQUEST_INVALID"
      (invalid_field "runtime_profile_id" (String.◌++◌ "unknown runtime_profile_id: " profile_id))

-- The part of `_resolve_runtime` below its first test
pub chosen_runtime :
    Config → Option String → Option String → Option String → Action (String × String)
unfolding known_profile
chosen_runtime cfg (some profile_id) python_version torch_profile =
    known_profile profile_id (runtime_profile_by_id cfg.catalog profile_id)
chosen_runtime cfg none python_version torch_profile = pure (
  or_default python_version cfg.settings.python_version,
  or_default torch_profile cfg.settings.torch_profile,
)

-- The python version and the torch profile
unfoldable pub resolve_runtime :
    Config → Option String → Option String → Option String → Action (String × String)
unfolding chosen_runtime
resolve_runtime cfg runtime_profile_id python_version torch_profile = do
  raise_if (is_some runtime_profile_id && (is_some python_version || is_some torch_profile))
      "REQUEST_INVALID"
      (invalid_field "runtime_profile_id"
        "runtime_profile_id cannot be mixed with python_version or torch_profile")
  chosen_runtime cfg runtime_profile_id python_version torch_profile
