-- ===== src/Db.antt =====
-- The tables of the database: app/models/item.py and app/models/comfy.py. A time is a number of
-- microseconds, and a table is the list of its rows in the order of insertion.
use comfy_shell_v.Prelude.{ℕ, ℤ, String, Option, List, []}

pub data ItemStatus : Type 0 where
  draft active archived : ItemStatus

pub record Item : Type 0 where
  pub id : String
  pub owner_id : String
  pub name : String
  pub description : Option String
  pub status : ItemStatus
  pub version : ℕ
  pub created_at : ℕ
  pub updated_at : ℕ
  pub deleted_at : Option ℕ
  pub deleted_by : Option String

pub data ConnectionMode : Type 0 where
  local ssh : ConnectionMode

pub record Host : Type 0 where
  pub id : String
  pub name : String
  pub connection : ConnectionMode
  pub ssh_target : Option String
  pub service_root : String
  pub data_root : String
  pub host_key_fingerprint : Option String
  pub created_at : ℕ
  pub updated_at : ℕ

pub record ModelRoot : Type 0 where
  pub id : String
  pub host_id : String
  pub label : String
  pub path : String
  pub created_at : ℕ
  pub updated_at : ℕ

pub record Instance : Type 0 where
  pub id : String
  pub host_id : String
  pub name : String
  pub instance_slug : String
  pub comfy_ref : String
  pub resolved_commit : Option String
  pub python_version : String
  pub torch_profile : String
  pub comfy_port : ℕ
  pub gpu_ids : List String
  pub primary_model_root_id : Option String
  pub created_at : ℕ
  pub updated_at : ℕ
  pub last_launched_at : Option ℕ

-- A row of `instance_model_roots`.
pub record InstanceModelRoot : Type 0 where
  pub instance_id : String
  pub model_root_id : String

pub data CommandKind : Type 0 where
  install reinstall start stop probe_host check_model_root : CommandKind

-- The phases that the code writes.
pub data Phase : Type 0 where
  running completed failed : Phase

pub record CommandRun : Type 0 where
  pub id : String
  pub request_id : String
  pub host_id : String
  pub instance_id : Option String
  pub kind : CommandKind
  pub phase : Phase
  pub started_at : ℕ
  pub ended_at : Option ℕ
  pub exit_code : Option ℤ
  pub error_code : Option String
  pub message : Option String
  pub log_path : Option String
  pub stderr_tail : Option String

pub record Db : Type 0 where
  pub items : List Item
  pub hosts : List Host
  pub model_roots : List ModelRoot
  pub instances : List Instance
  pub links : List InstanceModelRoot
  pub command_runs : List CommandRun

abbrev pub empty : Db
empty = record {
  items = [];
  hosts = [];
  model_roots = [];
  instances = [];
  links = [];
  command_runs = [];
}
