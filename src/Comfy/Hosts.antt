-- ===== src/Comfy/Hosts.antt =====
-- The methods on hosts and model roots of app/services/comfy_service.py.
use comfy_shell_v.Prelude.{String, Bool, true, false, Option, none, some, List, [], ◌∷◌}
use comfy_shell_v.Prelude.Json.{Fields, end, field, str, truthy, lookup}
use comfy_shell_v.Db.{Host, ConnectionMode, local, ssh}
use comfy_shell_v.Uow.{
  Action, pure, raise, raise_if, or_raise, commit, rollback, with_uow, on_integrity_error, ◌>>=◌,
  ◌>>◌,
}
use comfy_shell_v.Comfy.Config.{Config, resolved_data_root, default_model_root_path}
use comfy_shell_v.Comfy.Client
use comfy_shell_v.Comfy.Client.{get_str, get_data}
use comfy_shell_v.Comfy.Resolve.{or_default}
use comfy_shell_v.Comfy.Repository
use comfy_shell_v.Comfy.Responses.{
  HostResponse, ModelRootResponse, host_to_response, model_root_to_response,
}

-- `[f(x) for x in xs]`, in order
abbrev pub map_action {ℓ κ} : {A : Type ℓ} {B : Type κ} → (A → Action B) → List A → Action (List B)
map_action f [] = pure []
map_action f (x ∷ xs) = do y ← f x; ys ← map_action f xs; pure (y ∷ ys)

-- The branch of `ensure_default_host` with no host of the name
unfoldable pub create_default_host : Config → Action Host
unfolding Repository.create_host Repository.create_model_root
create_default_host cfg = do
  let data_root : String = resolved_data_root cfg cfg.settings.data_root
  host ← Repository.create_host "local" local cfg.service_root data_root none none
  Repository.create_model_root host.id "Shared Models" (default_model_root_path cfg data_root)
  commit
  pure host

unfoldable pub or_create : Config → Option Host → Action Host
unfolding create_default_host
or_create cfg (some host) = pure host
or_create cfg none = create_default_host cfg

unfoldable pub ensure_default_host : Config → Action HostResponse
unfolding or_create Repository.get_host_by_name
ensure_default_host cfg = with_uow do
  existing ← Repository.get_host_by_name "local"
  host ← or_create cfg existing
  host_to_response host

pub record HostCreateRequest : Type 0 where
  pub name : String
  pub connection : ConnectionMode
  pub service_root : Option String
  pub data_root : Option String
  pub ssh_target : Option String
  pub host_key_fingerprint : Option String

abbrev pub is_ssh : ConnectionMode → Bool
is_ssh local = false
is_ssh ssh = true

-- `except IntegrityError as exc:` with the error to raise
abbrev pub rolled_back {ℓ} : {A : Type ℓ} → String → Fields → String → Action A
rolled_back code details orig = do rollback; raise code details

unfoldable pub create_host : Config → HostCreateRequest → Action HostResponse
unfolding Repository.create_host
create_host cfg req = do
  raise_if (is_ssh req.connection) "EXECUTOR_UNSUPPORTED" (field "connection" (str "ssh") end)
  with_uow do
    host ←
        on_integrity_error
          (do
            h ←
                Repository.create_host req.name req.connection
                  (or_default req.service_root cfg.service_root)
                  (or_default req.data_root (resolved_data_root cfg cfg.settings.data_root))
                  req.ssh_target req.host_key_fingerprint
            commit
            pure h)
          (rolled_back "HOST_NAME_CONFLICT" (field "name" (str req.name) end))
    host_to_response host

unfoldable pub list_hosts : Config → Action (List HostResponse)
unfolding ensure_default_host Repository.list_hosts
list_hosts cfg = do
  ensure_default_host cfg
  with_uow do hosts ← Repository.list_hosts; map_action host_to_response hosts

-- `if host is None: raise AppError("HOST_NOT_FOUND", ...)`
abbrev pub require_host : String → Action Host
require_host host_id = do
  found ← Repository.get_host host_id
  or_raise found "HOST_NOT_FOUND" (field "host_id" (str host_id) end)

pub record ProbeResponse : Type 0 where
  pub ok : Bool
  pub layer : String
  pub payload : Fields

unfoldable pub probe_host : Config → String → Action ProbeResponse
unfolding Repository.get_host Client.run
probe_host cfg host_id = do
  host ← with_uow (require_host host_id)
  (payload, _) ← Client.run cfg ("host" ∷ "probe" ∷ "--data-root" ∷ host.data_root ∷ "--json" ∷ [])
  layer ← get_str payload "layer" "host"
  content ← get_data payload
  pure (record { ok = truthy (lookup payload "ok"); layer = layer; payload = content })

pub record ModelRootCreateRequest : Type 0 where
  pub host_id : String
  pub label : String
  pub path : String

unfoldable pub create_model_root : ModelRootCreateRequest → Action ModelRootResponse
unfolding Repository.get_host Repository.create_model_root
create_model_root req = with_uow do
  require_host req.host_id
  model_root ←
      on_integrity_error
        (do r ← Repository.create_model_root req.host_id req.label req.path; commit; pure r)
        (rolled_back "MODEL_ROOT_CONFLICT"
          (field "host_id" (str req.host_id) (field "path" (str req.path) end)))
  model_root_to_response model_root

unfoldable pub list_model_roots : Config → Option String → Action (List ModelRootResponse)
unfolding ensure_default_host Repository.list_model_roots
list_model_roots cfg host_id = do
  ensure_default_host cfg
  with_uow do
    model_roots ← Repository.list_model_roots host_id
    map_action model_root_to_response model_roots

pub record ModelRootCheckResponse : Type 0 where
  pub ok : Bool
  pub path : String
  pub exists : Bool
  pub is_dir : Bool
  pub readable : Bool

unfoldable pub check_model_root : Config → String → Action ModelRootCheckResponse
unfolding Repository.get_model_root Client.run
check_model_root cfg model_root_id = do
  model_root ← with_uow do
    found ← Repository.get_model_root model_root_id
    or_raise found "MODEL_ROOT_NOT_FOUND" (field "model_root_id" (str model_root_id) end)
  (payload, _) ←
      Client.run cfg ("model-root" ∷ "check" ∷ "--path" ∷ model_root.path ∷ "--json" ∷ [])
  path ← get_str payload "path" model_root.path
  pure (record {
    ok = truthy (lookup payload "ok");
    path = path;
    exists = truthy (lookup payload "exists");
    is_dir = truthy (lookup payload "is_dir");
    readable = truthy (lookup payload "readable");
  })
