-- ===== src/Comfy/Instances.antt =====
-- The methods on instances of app/services/comfy_service.py that keep them in the database.
use comfy_shell_v.Prelude.{
  ℕ, String, Bool, true, false, not, Option, none, some, List, [], ◌∷◌, ◌==◌, eqb, elem, is_some,
  if◌then◌else◌, ⊤,
}
use comfy_shell_v.Prelude.Decimal.{show_ℕ}
use comfy_shell_v.Prelude.Json.{Fields, end, field, str, Json, bool, truthy, lookup}
use comfy_shell_v.Db.{Host, ModelRoot, Instance}
use comfy_shell_v.Uow.{Action, pure, raise_if, or_raise, commit, with_uow, ◌>>=◌, ◌>>◌}
use comfy_shell_v.Comfy.Config.{Config}
use comfy_shell_v.Comfy.Client
use comfy_shell_v.Comfy.Client.{get_str, get_data}
use comfy_shell_v.Comfy.Resolve.{resolve_comfy_ref, resolve_runtime}
use comfy_shell_v.Comfy.Repository
use comfy_shell_v.Comfy.Repository.{NewInstance}
use comfy_shell_v.Comfy.Hosts.{require_host, ensure_default_host}
use comfy_shell_v.Comfy.Responses.{InstanceResponse, instance_to_response}

pub record InstanceCreateRequest : Type 0 where
  pub host_id : String
  pub name : String
  pub instance_slug : String
  pub comfy_version_id : Option String
  pub runtime_profile_id : Option String
  pub comfy_ref : Option String
  pub python_version : Option String
  pub torch_profile : Option String
  pub comfy_port : Option ℕ
  pub gpu_ids : List String
  pub model_root_ids : List String
  pub primary_model_root_id : Option String

abbrev pub not_found_root : String → Fields
not_found_root id = field "model_root_id" (str id) end

-- `model_root is None or model_root.host_id != host_id`
abbrev pub foreign_root : String → Option ModelRoot → Bool
foreign_root host_id none = true
foreign_root host_id (some r) = not (r.host_id == host_id)

-- `for model_root_id in model_root_ids: ...` of both writers
unfoldable pub check_roots : String → List String → Action ⊤
unfolding Repository.get_model_root
check_roots host_id [] = pure tt
check_roots host_id (id ∷ ids) = do
  model_root ← Repository.get_model_root id
  raise_if (foreign_root host_id model_root) "MODEL_ROOT_NOT_FOUND" (not_found_root id)
  check_roots host_id ids

-- `if primary is not None and primary not in ids: raise`
abbrev pub check_primary : Option String → List String → Action ⊤
check_primary none ids = pure tt
check_primary (some p) ids = raise_if (not (elem p ids)) "MODEL_ROOT_NOT_FOUND" (not_found_root p)

abbrev pub head? : List String → Option String
head? [] = none
head? (x ∷ _) = some x

-- `primary or (ids[0] if ids else None)`
abbrev pub primary_or_first : Option String → List String → Option String
primary_or_first none ids = head? ids
primary_or_first (some p) ids = if p == "" then head? ids else some p

abbrev first_root : List ModelRoot → List String
first_root [] = []
first_root (r ∷ _) = r.id ∷ []

-- `if not model_root_ids: ...`
unfoldable pub chosen_roots : String → List String → Action (List String)
unfolding Repository.list_model_roots
chosen_roots host_id (id ∷ ids) = pure (id ∷ ids)
chosen_roots host_id [] = do
  roots ← Repository.list_model_roots (some host_id)
  pure (first_root roots)

-- `data.comfy_port or default`
abbrev pub port_or : Option ℕ → ℕ → ℕ
port_or none default = default
port_or (some p) default = if eqb p 0 then default else p

-- The head of `create_instance`: the host, the model roots and the primary one.
unfoldable pub pick_roots : InstanceCreateRequest → Action (Host × List String × Option String)
unfolding check_roots chosen_roots Repository.get_host Repository.get_by_host_slug
pick_roots req = do
  host ← require_host req.host_id
  same_slug ← Repository.get_by_host_slug req.host_id req.instance_slug
  raise_if (is_some same_slug) "INSTANCE_SLUG_CONFLICT"
      (field "instance_slug" (str req.instance_slug) end)
  model_root_ids ← chosen_roots req.host_id req.model_root_ids
  let primary : Option String = primary_or_first req.primary_model_root_id model_root_ids
  check_primary primary model_root_ids
  check_roots req.host_id model_root_ids
  pure (host, model_root_ids, primary)

-- All that it settles before it writes: the columns of the new row too.
unfoldable pub plan_instance :
    Config → InstanceCreateRequest → Action (Host × List String × NewInstance)
unfolding resolve_comfy_ref resolve_runtime
plan_instance cfg req = do
  (host, model_root_ids, primary) ← pick_roots req
  comfy_ref ← resolve_comfy_ref cfg req.comfy_version_id req.comfy_ref
  (python_version, torch_profile) ←
      resolve_runtime cfg req.runtime_profile_id req.python_version req.torch_profile
  pure (
    host,
    model_root_ids,
    record {
      host_id = req.host_id;
      name = req.name;
      instance_slug = req.instance_slug;
      comfy_ref = comfy_ref;
      python_version = python_version;
      torch_profile = torch_profile;
      comfy_port = port_or req.comfy_port cfg.settings.instance_port_start;
      gpu_ids = req.gpu_ids;
      primary_model_root_id = primary;
    },
  )

-- Its two writes
unfoldable pub store_instance : NewInstance → List String → Action Instance
unfolding Repository.create_instance Repository.set_model_roots
store_instance columns model_root_ids = do
  row ← Repository.create_instance columns
  Repository.set_model_roots row.id model_root_ids
  pure row

unfoldable pub create_instance : Config → InstanceCreateRequest → Action InstanceResponse
create_instance cfg req = with_uow do
  (host, model_root_ids, columns) ← plan_instance cfg req
  row ← store_instance columns model_root_ids
  commit
  instance_to_response cfg row host.data_root model_root_ids

-- `_instance_context`: the roots that are still there, in the order of their ids
unfoldable pub present_roots : List String → Action (List ModelRoot)
unfolding Repository.get_model_root
present_roots [] = pure []
present_roots (id ∷ ids) = do
  root ← Repository.get_model_root id
  rest ← present_roots ids
  pure (elim root [ none ↦ rest | some r ↦ r ∷ rest ])

pub record Context : Type 0 where
  pub host : Host
  pub row : Instance
  pub model_root_ids : List String
  pub model_roots : List ModelRoot

unfoldable pub instance_context : String → Action Context
unfolding present_roots Repository.get_instance Repository.get_host Repository.model_root_ids
instance_context instance_id = with_uow do
  found ← Repository.get_instance instance_id
  row ← or_raise found "INSTANCE_NOT_FOUND" (field "instance_id" (str instance_id) end)
  host ← require_host row.host_id
  ids ← Repository.model_root_ids row.id
  roots ← present_roots ids
  pure (record { host = host; row = row; model_root_ids = ids; model_roots = roots })

unfoldable pub get_instance : Config → String → Action InstanceResponse
unfolding instance_context
get_instance cfg instance_id = do
  ctx ← instance_context instance_id
  instance_to_response cfg ctx.row ctx.host.data_root ctx.model_root_ids

-- The loop of `list_instances`
unfoldable pub instance_rows : Config → List Instance → Action (List InstanceResponse)
unfolding Repository.get_host Repository.model_root_ids
instance_rows cfg [] = pure []
instance_rows cfg (row ∷ rows) = do
  host ← require_host row.host_id
  ids ← Repository.model_root_ids row.id
  first ← instance_to_response cfg row host.data_root ids
  rest ← instance_rows cfg rows
  pure (first ∷ rest)

unfoldable pub list_instances : Config → Option String → Action (List InstanceResponse)
unfolding instance_rows ensure_default_host Repository.list_instances
list_instances cfg host_id = do
  ensure_default_host cfg
  with_uow do rows ← Repository.list_instances host_id; instance_rows cfg rows

-- The arguments that name an instance and its host's data root
abbrev pub instance_args : String → Host → Instance → List String → List String
instance_args action host row rest =
    "instance" ∷ action ∷ "--id" ∷ row.id ∷ "--slug" ∷ row.instance_slug ∷ "--data-root"
    ∷ host.data_root ∷ rest

abbrev pub address_args : Config → Instance → List String
address_args cfg row =
    "--host" ∷ cfg.settings.bind_host ∷ "--port" ∷ show_ℕ row.comfy_port ∷ "--json" ∷ []

-- `if not payload.get("ok"): raise AppError(str(payload.get("error_code", ...)), details=payload)`
abbrev pub require_ok : Fields → Action ⊤
require_ok payload = do
  code ← get_str payload "error_code" "COMFYCTL_FAILED"
  raise_if (not (truthy (lookup payload "ok"))) code payload

unfoldable pub status_payload : Config → Host → Instance → Action Fields
unfolding Client.run
status_payload cfg host row = do
  (payload, _) ← Client.run cfg (instance_args "status" host row (address_args cfg row))
  require_ok payload
  pure payload

-- `value is True`
abbrev pub is_true : Json → Bool
is_true (bool b) = b
is_true _ = false

-- The test of the two methods that want the process dead
unfoldable pub require_stopped : Config → Host → Instance → Action ⊤
unfolding status_payload
require_stopped cfg host row = do
  payload ← status_payload cfg host row
  status_data ← get_data payload
  raise_if (is_true (lookup status_data "process_alive")) "INSTANCE_RUNNING"
      (field "instance_id" (str row.id) (field "layer" (str "process") end))
