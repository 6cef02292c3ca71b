-- ===== src/Comfy/Responses.antt =====
-- The answers of app/services/comfy_service.py (app/schemas/comfy.py), built from the rows.
use comfy_shell_v.Prelude.{ℕ, ℤ, String, Option, none, some, List}
use comfy_shell_v.Db.{Host, ConnectionMode, ModelRoot, Instance, CommandRun, CommandKind, Phase}
use comfy_shell_v.Uow.{Action, asks}
use comfy_shell_v.Comfy.Config.{Config, instance_install_root}

pub record HostResponse : Type 0 where
  pub id : String
  pub name : String
  pub connection : ConnectionMode
  pub ssh_target : Option String
  pub service_root : String
  pub data_root : String
  pub host_key_fingerprint : Option String
  pub created_at : String
  pub updated_at : String

pub record ModelRootResponse : Type 0 where
  pub id : String
  pub host_id : String
  pub label : String
  pub path : String
  pub created_at : String
  pub updated_at : String

pub record InstanceResponse : Type 0 where
  pub id : String
  pub host_id : String
  pub name : String
  pub instance_slug : String
  pub install_root : String
  pub comfy_ref : String
  pub resolved_commit : Option String
  pub python_version : String
  pub torch_profile : String
  pub comfy_port : ℕ
  pub gpu_ids : List String
  pub primary_model_root_id : Option String
  pub model_root_ids : List String
  pub created_at : String
  pub updated_at : String
  pub last_launched_at : Option String

pub record RunResponse : Type 0 where
  pub id : String
  pub request_id : String
  pub host_id : String
  pub instance_id : Option String
  pub kind : CommandKind
  pub phase : Phase
  pub started_at : String
  pub ended_at : Option String
  pub exit_code : Option ℤ
  pub error_code : Option String
  pub message : Option String
  pub log_path : Option String
  pub stderr_tail : Option String

abbrev pub iso : (ℕ → String) → Option ℕ → Option String
iso isoformat none = none
iso isoformat (some t) = some (isoformat t)

abbrev pub host_to_response : Host → Action HostResponse
host_to_response h = asks (λ env. record {
  id = h.id;
  name = h.name;
  connection = h.connection;
  ssh_target = h.ssh_target;
  service_root = h.service_root;
  data_root = h.data_root;
  host_key_fingerprint = h.host_key_fingerprint;
  created_at = env.isoformat h.created_at;
  updated_at = env.isoformat h.updated_at;
})

abbrev pub model_root_to_response : ModelRoot → Action ModelRootResponse
model_root_to_response r = asks (λ env. record {
  id = r.id;
  host_id = r.host_id;
  label = r.label;
  path = r.path;
  created_at = env.isoformat r.created_at;
  updated_at = env.isoformat r.updated_at;
})

abbrev pub instance_response :
    Config
    → (ℕ → String)
    → Instance
    → (data_root : String) → (model_root_ids : List String) → InstanceResponse
instance_response cfg isoformat i data_root model_root_ids = record {
  id = i.id;
  host_id = i.host_id;
  name = i.name;
  instance_slug = i.instance_slug;
  install_root = instance_install_root cfg data_root i.instance_slug;
  comfy_ref = i.comfy_ref;
  resolved_commit = i.resolved_commit;
  python_version = i.python_version;
  torch_profile = i.torch_profile;
  comfy_port = i.comfy_port;
  gpu_ids = i.gpu_ids;
  primary_model_root_id = i.primary_model_root_id;
  model_root_ids = model_root_ids;
  created_at = isoformat i.created_at;
  updated_at = isoformat i.updated_at;
  last_launched_at = iso isoformat i.last_launched_at;
}

abbrev pub instance_to_response : Config → Instance → String → List String → Action InstanceResponse
instance_to_response cfg i data_root model_root_ids =
    asks (λ env. instance_response cfg env.isoformat i data_root model_root_ids)

abbrev pub run_to_response : CommandRun → Action RunResponse
run_to_response r = asks (λ env. record {
  id = r.id;
  request_id = r.request_id;
  host_id = r.host_id;
  instance_id = r.instance_id;
  kind = r.kind;
  phase = r.phase;
  started_at = env.isoformat r.started_at;
  ended_at = iso env.isoformat r.ended_at;
  exit_code = r.exit_code;
  error_code = r.error_code;
  message = r.message;
  log_path = r.log_path;
  stderr_tail = r.stderr_tail;
})
