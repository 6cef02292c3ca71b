-- ===== src/Errors/Service/Reads.antt =====
-- The codes of the calls that read the database.
use comfy_shell_v.Prelude.{String, refl, arith, Option, List, [], ◌∷◌}
use comfy_shell_v.Db.{Instance}
use comfy_shell_v.Prelude.Json.{end, field, str}
use comfy_shell_v.Uow.{or_raise}
use comfy_shell_v.Comfy.Responses.{
  run_to_response, host_to_response, model_root_to_response, instance_to_response,
}
use comfy_shell_v.Comfy.Config.{Config}
use comfy_shell_v.Comfy.Repository
use comfy_shell_v.Comfy.Repository.Runs as Repository_runs
use comfy_shell_v.Comfy.Hosts.{list_hosts, list_model_roots, ensure_default_host, require_host}
use comfy_shell_v.Comfy.Instances.{
  Context, present_roots, instance_context, get_instance, instance_rows, list_instances,
}
use comfy_shell_v.Comfy.Runs.{get_run, list_runs}
use comfy_shell_v.Errors.Codes.{service_codes}
use comfy_shell_v.Errors.Service.{
  Registered, bind-Registered, uow-Registered, pure-Registered, map_action-Registered,
}

pub ensure_default_host-Registered : (cfg : Config) → Registered (ensure_default_host cfg)
unfolding ensure_default_host
ensure_default_host-Registered cfg = record { at = λ env w prints. ground arith }

pub get_run-Registered : (id : String) → Registered (get_run id)
unfolding get_run
get_run-Registered id = record { at = λ env w prints. ground (arith, service_codes) }

pub list_runs-Registered : (id : Option String) → Registered (list_runs id)
unfolding list_runs Repository_runs.list
list_runs-Registered id = uow-Registered _ (
    bind-Registered (Repository_runs.list id) _ (record { at = λ env w prints. refl })
      λ runs.
        map_action-Registered run_to_response (λ run. record { at = λ env w prints. refl }) runs)

pub list_hosts-Registered : (cfg : Config) → Registered (list_hosts cfg)
unfolding list_hosts Repository.list_hosts
list_hosts-Registered cfg =
    bind-Registered (ensure_default_host cfg) _ (ensure_default_host-Registered cfg) λ u.
      uow-Registered _ (
        bind-Registered Repository.list_hosts _ (record { at = λ env w prints. refl })
          λ hosts.
            map_action-Registered host_to_response (λ h. record { at = λ env w prints. refl })
              hosts)

pub list_model_roots-Registered :
    (cfg : Config) (host_id : Option String) → Registered (list_model_roots cfg host_id)
unfolding list_model_roots Repository.list_model_roots
list_model_roots-Registered cfg host_id =
    bind-Registered (ensure_default_host cfg) _ (ensure_default_host-Registered cfg) λ u.
      uow-Registered _ (
        bind-Registered (Repository.list_model_roots host_id) _
          (record { at = λ env w prints. refl })
          λ roots.
            map_action-Registered model_root_to_response (λ r. record { at = λ env w prints. refl })
              roots)

present_roots-Registered : (ids : List String) → Registered (present_roots ids)
unfolding present_roots Repository.get_model_root
present_roots-Registered [] = pure-Registered []
present_roots-Registered (id ∷ ids) = record {
  at = λ env w prints. ground (arith, (present_roots-Registered ids).at env w prints);
}

require_host-Registered : (id : String) → Registered (require_host id)
unfolding Repository.get_host
require_host-Registered id = record { at = λ env w prints. ground (arith, service_codes) }

ids-Registered : (id : String) → Registered (Repository.model_root_ids id)
unfolding Repository.model_root_ids
ids-Registered id = record { at = λ env w prints. refl }

pub context-Registered : (id : String) → Registered (instance_context id)
unfolding instance_context Repository.get_instance
context-Registered id = uow-Registered _ (
    bind-Registered (Repository.get_instance id) _ (record { at = λ env w prints. refl })
      λ found.
        bind-Registered (or_raise found "INSTANCE_NOT_FOUND" (field "instance_id" (str id) end)) _
          (record { at = λ env w prints. ground (arith, service_codes) })
          λ row.
            bind-Registered (require_host row.host_id) _ (require_host-Registered row.host_id)
              λ host.
                bind-Registered (Repository.model_root_ids row.id) _ (ids-Registered row.id) λ ids.
                  bind-Registered (present_roots ids) _ (present_roots-Registered ids) λ roots.
                    pure-Registered {A = Context} (record {
                      host = host;
                      row = row;
                      model_root_ids = ids;
                      model_roots = roots;
                    }))

pub get_instance-Registered : (cfg : Config) (id : String) → Registered (get_instance cfg id)
unfolding get_instance
get_instance-Registered cfg id =
    bind-Registered (instance_context id) _ (context-Registered id)
      λ ctx. record { at = λ env w prints. refl }

instance_rows-Registered :
    (cfg : Config) (rows : List Instance) → Registered (instance_rows cfg rows)
unfolding instance_rows
instance_rows-Registered cfg [] = pure-Registered []
instance_rows-Registered cfg (row ∷ rows) =
    bind-Registered (require_host row.host_id) _ (require_host-Registered row.host_id) λ host.
      bind-Registered (Repository.model_root_ids row.id) _ (ids-Registered row.id) λ ids.
        bind-Registered (instance_to_response cfg row host.data_root ids) _
          (record { at = λ env w prints. refl })
          λ first.
            bind-Registered (instance_rows cfg rows) _ (instance_rows-Registered cfg rows)
              λ rest. pure-Registered (first ∷ rest)

pub list_instances-Registered :
    (cfg : Config) (host_id : Option String) → Registered (list_instances cfg host_id)
unfolding list_instances Repository.list_instances
list_instances-Registered cfg host_id =
    bind-Registered (ensure_default_host cfg) _ (ensure_default_host-Registered cfg) λ u.
      uow-Registered _ (
        bind-Registered (Repository.list_instances host_id) _ (record { at = λ env w prints. refl })
          λ rows. instance_rows-Registered cfg rows)
