-- ===== src/Comfy/Operations.antt =====
-- The methods of app/services/comfy_service.py that drive an instance through the command line.
pub mod Outcome
pub mod Install
use Prim.Native.String
use comfy_shell_v.Prelude.Dict.{get}
use comfy_shell_v.Prelude.{
  ℕ, String, Bool, true, false, not, ◌||◌, Option, none, some, List, [], ◌∷◌, ◌++◌, map, ◌==◌,
  is_some, if◌then◌else◌, ⊤,
}
use comfy_shell_v.Prelude.Decimal.{show_ℕ}
use comfy_shell_v.Prelude.Json.{
  Fields, end, field, fields, str, Json, array, object, items, truthy, lookup,
}
use comfy_shell_v.Db.{Host, ModelRoot, Instance, CommandKind, start, stop}
use comfy_shell_v.Uow.{Action, pure, raise_crash, commit, with_uow, ◌>>=◌, ◌>>◌}
use comfy_shell_v.Comfy.Config.{Config}
use comfy_shell_v.Comfy.Client
use comfy_shell_v.Comfy.Client.{get_str, get_data}
use comfy_shell_v.Comfy.Resolve.{resolve_comfy_ref}
use comfy_shell_v.Comfy.Repository
use comfy_shell_v.Comfy.Responses.{RunResponse}
use comfy_shell_v.Comfy.Instances.{
  Context, instance_context, instance_args, address_args, require_ok, require_stopped,
  status_payload,
}
use comfy_shell_v.Comfy.Runs.{record_run, run_recorded, get_run}

-- The common course of install, start and stop: a recorded run, then what a success does.
abbrev pub recorded : Config → Context → CommandKind → List String → Action (String × Fields)
recorded cfg ctx kind args = do
  run_id ← record_run ctx.host.id (some ctx.row.id) kind
  (payload, _) ← run_recorded cfg run_id args
  require_ok payload
  pure (run_id, payload)

abbrev extra_paths : List ModelRoot → List String
extra_paths [] = []
extra_paths (r ∷ roots) = "--extra-model-paths" ∷ r.path ∷ extra_paths roots

abbrev gpu_args : List String → List String
gpu_args [] = []
gpu_args (g ∷ gpus) = "--gpu" ∷ g ∷ gpu_args gpus

unfoldable pub start_args : Config → Context → List String
start_args cfg ctx =
    instance_args "start" ctx.host ctx.row
      (address_args cfg ctx.row ++ extra_paths ctx.model_roots ++ gpu_args ctx.row.gpu_ids)

abbrev pub mark_launched : String → Action ⊤
mark_launched instance_id = with_uow do Repository.mark_launched instance_id; commit

unfoldable pub start_instance : Config → String → Action RunResponse
unfolding instance_context record_run run_recorded get_run Repository.mark_launched
start_instance cfg instance_id = do
  ctx ← instance_context instance_id
  (run_id, _) ← recorded cfg ctx start (start_args cfg ctx)
  mark_launched ctx.row.id
  get_run run_id

unfoldable pub stop_instance : Config → String → Action RunResponse
unfolding instance_context record_run run_recorded get_run
stop_instance cfg instance_id = do
  ctx ← instance_context instance_id
  (run_id, _) ← recorded cfg ctx stop (instance_args "stop" ctx.host ctx.row ("--json" ∷ []))
  get_run run_id

pub record InstanceInstallRequest : Type 0 where
  pub comfy_version_id : Option String
  pub comfy_ref : Option String
  pub restart : Bool

abbrev url_args : String → String → List String
url_args flag url = if url == "" then [] else flag ∷ url ∷ []

unfoldable pub install_args : Config → Host → Instance → String → List String
install_args cfg host row comfy_ref =
    instance_args "install" host row (
      "--repo" ∷ cfg.settings.repo_url ∷ "--ref" ∷ comfy_ref ∷ "--python" ∷ row.python_version
      ∷ "--torch-profile" ∷ row.torch_profile ∷ "--json" ∷ [])
    ++ url_args "--python-index-url" cfg.settings.python_index_url
    ++ url_args "--torch-index-url" cfg.settings.torch_index_url
    ++ url_args "--torch-find-links-url" cfg.settings.torch_find_links_url

-- The ref of the request, or else the instance's own
abbrev pub install_ref : Config → Instance → InstanceInstallRequest → Action String
install_ref cfg row req =
    if is_some req.comfy_version_id || is_some req.comfy_ref
    then resolve_comfy_ref cfg req.comfy_version_id req.comfy_ref
    else pure row.comfy_ref

-- `str(payload.get("resolved_commit", "")) or None`
abbrev pub some_text : String → Option String
some_text s = if s == "" then none else some s

abbrev pub write_install : String → String → Fields → Action ⊤
write_install instance_id comfy_ref payload = with_uow do
  resolved ← get_str payload "resolved_commit" ""
  Repository.update_install_result instance_id comfy_ref (some_text resolved)
  commit

abbrev pub restart_if : Config → String → Bool → Action ⊤
restart_if cfg instance_id false = pure tt
restart_if cfg instance_id true = do start_instance cfg instance_id; pure tt

-- The part of `install_instance` below the choice of the ref
abbrev pub install_at :
    Config → Context → InstanceInstallRequest → CommandKind → String → String → Action RunResponse
install_at cfg ctx req kind instance_id comfy_ref = do
  (run_id, payload) ← recorded cfg ctx kind (install_args cfg ctx.host ctx.row comfy_ref)
  write_install ctx.row.id comfy_ref payload
  restart_if cfg instance_id req.restart
  get_run run_id

unfoldable pub install_instance :
    Config → String → InstanceInstallRequest → CommandKind → Action RunResponse
unfolding instance_context require_stopped resolve_comfy_ref record_run run_recorded get_run
    start_instance Repository.update_install_result
install_instance cfg instance_id req kind = do
  ctx ← instance_context instance_id
  require_stopped cfg ctx.host ctx.row
  comfy_ref ← install_ref cfg ctx.row req
  install_at cfg ctx req kind instance_id comfy_ref

-- InstanceStatusResponse and InstanceReadyResponse, whose flag is `ok` or `ready`
pub record StateResponse : Type 0 where
  pub flag : Bool
  pub instance_id : String
  pub layer : String
  pub payload : Fields

unfoldable pub status_instance : Config → String → Action StateResponse
unfolding instance_context status_payload
status_instance cfg instance_id = do
  ctx ← instance_context instance_id
  payload ← status_payload cfg ctx.host ctx.row
  layer ← get_str payload "layer" "process"
  content ← get_data payload
  pure (record {
    flag = truthy (lookup payload "ok");
    instance_id = ctx.row.id;
    layer = layer;
    payload = content;
  })

unfoldable pub ready_instance : Config → String → Action StateResponse
unfolding instance_context Client.run
ready_instance cfg instance_id = do
  ctx ← instance_context instance_id
  (payload, _) ← Client.run cfg (instance_args "ready" ctx.host ctx.row (address_args cfg ctx.row))
  layer ← get_str payload "layer" "comfy"
  content ← get_data payload
  pure (record {
    flag = truthy (lookup payload "ready");
    instance_id = ctx.row.id;
    layer = layer;
    payload = content;
  })

pub record InstanceLogsResponse : Type 0 where
  pub instance_id : String
  pub log_path : String
  pub lines : List String

abbrev chars : String → List Json
chars String.[] = []
chars (String.◌∷◌ c s) = str (String.◌∷◌ c String.[]) ∷ chars s

abbrev keys : Fields → List Json
keys end = []
keys (field k v rest) = str k ∷ keys rest

-- `list(payload.get("lines", []))`
abbrev pub list_of : Option Json → Action (List Json)
list_of none = pure []
list_of (some (array vs)) = pure (items vs)
list_of (some (object fs)) = pure (keys fs)
list_of (some (str s)) = pure (chars s)
list_of (some _) = raise_crash

-- The response takes texts only.
unfoldable pub texts : List Json → Action (List String)
texts [] = pure []
texts (str s ∷ rest) = do ss ← texts rest; pure (s ∷ ss)
texts (_ ∷ _) = raise_crash

unfoldable pub logs_instance : Config → String → ℕ → Action InstanceLogsResponse
unfolding instance_context Client.run texts
logs_instance cfg instance_id tail = do
  ctx ← instance_context instance_id
  (payload, _) ←
      Client.run cfg (instance_args "logs" ctx.host ctx.row ("--tail" ∷ show_ℕ tail ∷ []))
  log_path ← get_str payload "log_path" ""
  values ← list_of (get (fields payload) "lines")
  lines ← texts values
  pure (record { instance_id = ctx.row.id; log_path = log_path; lines = lines })
