-- ===== src/Comfy/Repository.antt =====
-- app/repositories/comfy_repository.py over the open session, with the indexes, checks and foreign
-- keys of app/models/comfy.py: a statement that breaks one is refused. A lookup by a key has at
-- most one row.
pub mod Rows
pub mod Runs
use comfy_shell_v.Prelude.{
  ℕ, String, Bool, true, false, not, ◌&&◌, ◌||◌, Option, none, some, List, [], ◌∷◌, ◌++◌, map, ◌==◌,
  eqb, ltb, find, any, filterb, update_where, is_some, if◌then◌else◌, ⊤,
}
use comfy_shell_v.Prelude.Order.{before, sorted_by}
use comfy_shell_v.Db.{Db, Host, ConnectionMode, ModelRoot, Instance, InstanceModelRoot}
use comfy_shell_v.Uow.{Env, Action, pure, gets, ask, asks, modify, refuse_if, ◌>>=◌, ◌>>◌}

-- `host_id IS NULL OR column = host_id` of the list queries, as the code builds it
abbrev pub matches : Option String → String → Bool
matches none s = true
matches (some wanted) s = s == wanted

abbrev pub host_with_id : String → Host → Bool
host_with_id id h = h.id == id

abbrev pub root_with_id : String → ModelRoot → Bool
root_with_id id r = r.id == id

abbrev pub instance_with_id : String → Instance → Bool
instance_with_id id i = i.id == id

-- HostRepository

unfoldable pub create_host :
    String → ConnectionMode → String → String → Option String → Option String → Action Host
create_host name connection service_root data_root ssh_target host_key_fingerprint = do
  id ← ask (λ env t. env.uuid t)
  created ← ask (λ env t. env.now t)
  updated ← ask (λ env t. env.now t)
  let host : Host = record {
    id = id;
    name = name;
    connection = connection;
    ssh_target = ssh_target;
    service_root = service_root;
    data_root = data_root;
    host_key_fingerprint = host_key_fingerprint;
    created_at = created;
    updated_at = updated;
  }
  hosts ← gets (λ db. db.hosts)
  refuse_if (any (host_with_id id) hosts) "hosts_pkey"
  refuse_if (any (λ h. h.name == name) hosts) "uq_hosts_name"
  modify (λ db. record db { hosts = hosts ++ host ∷ [] })
  pure host

unfoldable pub get_host : String → Action (Option Host)
get_host host_id = gets (λ db. find (host_with_id host_id) db.hosts)

unfoldable pub get_host_by_name : String → Action (Option Host)
get_host_by_name name = gets (λ db. find (λ h. h.name == name) db.hosts)

unfoldable pub list_hosts : Action (List Host)
list_hosts = do
  text_before ← asks (λ env. env.text_before)
  gets (λ db. sorted_by (λ a b. before text_before a.created_at a.id b.created_at b.id) db.hosts)

-- ModelRootRepository

-- The row that `create` adds
abbrev pub model_root_row : String → String → String → String → ℕ → ℕ → ModelRoot
model_root_row host_id label path id created updated = record {
  id = id;
  host_id = host_id;
  label = label;
  path = path;
  created_at = created;
  updated_at = updated;
}

unfoldable pub create_model_root : String → String → String → Action ModelRoot
create_model_root host_id label path = do
  id ← ask (λ env t. env.uuid t)
  created ← ask (λ env t. env.now t)
  updated ← ask (λ env t. env.now t)
  let model_root : ModelRoot = model_root_row host_id label path id created updated
  db ← gets (λ db. db)
  refuse_if (any (root_with_id id) db.model_roots) "model_roots_pkey"
  refuse_if (any (λ r. r.host_id == host_id && r.path == path) db.model_roots)
      "uq_model_roots_host_path"
  refuse_if (not (any (host_with_id host_id) db.hosts)) "model_roots_host_id_fkey"
  modify (λ s. record s { model_roots = db.model_roots ++ model_root ∷ [] })
  pure model_root

unfoldable pub get_model_root : String → Action (Option ModelRoot)
get_model_root model_root_id = gets (λ db. find (root_with_id model_root_id) db.model_roots)

unfoldable pub list_model_roots : Option String → Action (List ModelRoot)
list_model_roots host_id = do
  text_before ← asks (λ env. env.text_before)
  gets (λ db.
      sorted_by (λ a b. before text_before a.created_at a.id b.created_at b.id)
        (filterb (λ r. matches host_id r.host_id) db.model_roots))

-- InstanceRepository

-- The foreign key of `primary_model_root_id`
abbrev pub root_exists : Db → Option String → Bool
root_exists db none = true
root_exists db (some id) = any (root_with_id id) db.model_roots

-- The columns that `create` is given
pub record NewInstance : Type 0 where
  pub host_id : String
  pub name : String
  pub instance_slug : String
  pub comfy_ref : String
  pub python_version : String
  pub torch_profile : String
  pub comfy_port : ℕ
  pub gpu_ids : List String
  pub primary_model_root_id : Option String

unfoldable pub create_instance : NewInstance → Action Instance
create_instance n = do
  id ← ask (λ env t. env.uuid t)
  created ← ask (λ env t. env.now t)
  updated ← ask (λ env t. env.now t)
  let new : Instance = record {
    id = id;
    host_id = n.host_id;
    name = n.name;
    instance_slug = n.instance_slug;
    comfy_ref = n.comfy_ref;
    resolved_commit = none;
    python_version = n.python_version;
    torch_profile = n.torch_profile;
    comfy_port = n.comfy_port;
    gpu_ids = n.gpu_ids;
    primary_model_root_id = n.primary_model_root_id;
    created_at = created;
    updated_at = updated;
    last_launched_at = none;
  }
  db ← gets (λ db. db)
  refuse_if (any (instance_with_id id) db.instances) "instances_pkey"
  refuse_if (any (λ i. i.host_id == n.host_id && i.instance_slug == n.instance_slug) db.instances)
      "uq_instances_host_slug"
  refuse_if (not (any (host_with_id n.host_id) db.hosts)) "instances_host_id_fkey"
  refuse_if (not (root_exists db n.primary_model_root_id)) "instances_primary_model_root_id_fkey"
  modify (λ s. record s { instances = db.instances ++ new ∷ [] })
  pure new

unfoldable pub get_instance : String → Action (Option Instance)
get_instance instance_id = gets (λ db. find (instance_with_id instance_id) db.instances)

unfoldable pub get_by_host_slug : String → String → Action (Option Instance)
get_by_host_slug host_id slug =
    gets (λ db. find (λ i. i.host_id == host_id && i.instance_slug == slug) db.instances)

unfoldable pub list_instances : Option String → Action (List Instance)
list_instances host_id = do
  text_before ← asks (λ env. env.text_before)
  gets (λ db.
      sorted_by (λ a b. before text_before a.created_at a.id b.created_at b.id)
        (filterb (λ i. matches host_id i.host_id) db.instances))

-- The rows of one instance, and the others
abbrev pub linked_to : String → InstanceModelRoot → Bool
linked_to instance_id l = l.instance_id == instance_id

abbrev pub link_rows : String → List String → List InstanceModelRoot
link_rows instance_id [] = []
link_rows instance_id (id ∷ ids) =
    record { instance_id = instance_id; model_root_id = id } ∷ link_rows instance_id ids

-- `x not in` the rest, for each entry: the primary key of the new rows
abbrev pub distinct : List String → Bool
distinct [] = true
distinct (id ∷ ids) = not (any (λ j. j == id) ids) && distinct ids

abbrev pub all_roots : Db → List String → Bool
all_roots db [] = true
all_roots db (id ∷ ids) = any (root_with_id id) db.model_roots && all_roots db ids

unfoldable pub set_model_roots : String → List String → Action ⊤
set_model_roots instance_id model_root_ids = do
  modify (λ db. record db { links = filterb (λ l. not (linked_to instance_id l)) db.links })
  db ← gets (λ db. db)
  refuse_if (not (distinct model_root_ids)) "instance_model_roots_pkey"
  refuse_if (not (all_roots db model_root_ids)) "instance_model_roots_model_root_id_fkey"
  refuse_if (not (any (instance_with_id instance_id) db.instances))
      "instance_model_roots_instance_id_fkey"
  modify (λ s. record s { links = db.links ++ link_rows instance_id model_root_ids })

abbrev pub linked_ids : String → List InstanceModelRoot → List String
linked_ids instance_id links = map (λ l. l.model_root_id) (filterb (linked_to instance_id) links)

-- The query has no ORDER BY.
unfoldable pub model_root_ids : String → Action (List String)
model_root_ids instance_id = do
  ids ← gets (λ db. linked_ids instance_id db.links)
  ask (λ env t. env.unordered t ids)

abbrev pub update_instance : String → (Instance → Instance) → Action ⊤
update_instance instance_id change = modify (λ db. record db {
  instances = update_where (instance_with_id instance_id) change db.instances;
})

unfoldable pub update_install_result : String → String → Option String → Action ⊤
update_install_result instance_id comfy_ref resolved_commit = do
  now ← ask (λ env t. env.now t)
  update_instance instance_id
      (λ i. record i { comfy_ref = comfy_ref; resolved_commit = resolved_commit; updated_at = now })

unfoldable pub update_launch_config : String → ℕ → List String → Option String → Action ⊤
update_launch_config instance_id comfy_port gpu_ids primary_model_root_id = do
  now ← ask (λ env t. env.now t)
  db ← gets (λ db. db)
  refuse_if
      (any (instance_with_id instance_id) db.instances
        && not (root_exists db primary_model_root_id))
      "instances_primary_model_root_id_fkey"
  update_instance instance_id (λ i. record i {
    comfy_port = comfy_port;
    gpu_ids = gpu_ids;
    primary_model_root_id = primary_model_root_id;
    updated_at = now;
  })

unfoldable pub mark_launched : String → Action ⊤
mark_launched instance_id = do
  now ← ask (λ env t. env.now t)
  update_instance instance_id (λ i. record i { last_launched_at = some now; updated_at = now })
