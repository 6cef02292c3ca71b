-- ===== src/Errors/Service/Writes.antt =====
-- The codes of the calls that write to the database without a run of the command line, and of the
-- checks of hosts and model roots.
use comfy_shell_v.Prelude.{String, refl, arith, Option, some, none, is_some, List, [], ◌∷◌}
use comfy_shell_v.Prelude.Json.{end, field, str}
use comfy_shell_v.Uow.{with_uow, raise_if}
use comfy_shell_v.Comfy.Config.{Config}
use comfy_shell_v.Comfy.Client
use comfy_shell_v.Comfy.Client.{get_data, get_str}
use comfy_shell_v.Comfy.Repository
use comfy_shell_v.Comfy.Repository.{NewInstance}
use comfy_shell_v.Comfy.Hosts.{
  create_host, HostCreateRequest, create_model_root, ModelRootCreateRequest, probe_host,
  check_model_root, require_host,
}
use comfy_shell_v.Comfy.Resolve.{resolve_comfy_ref, resolve_runtime}
use comfy_shell_v.Comfy.Instances.{
  InstanceCreateRequest, check_roots, chosen_roots, pick_roots, plan_instance, store_instance,
  create_instance, check_primary, primary_or_first, port_or,
}
use comfy_shell_v.Errors.Codes.{service_codes}
use comfy_shell_v.Errors.Service.{Registered, bind-Registered, uow-Registered, pure-Registered}
use comfy_shell_v.Errors.Service.Commands.{run-Registered}

pub create_host-Registered :
    (cfg : Config) (req : HostCreateRequest) → Registered (create_host cfg req)
unfolding create_host
create_host-Registered cfg req = record { at = λ env w prints. ground (arith, service_codes) }

pub create_model_root-Registered :
    (req : ModelRootCreateRequest) → Registered (create_model_root req)
unfolding create_model_root
create_model_root-Registered req = record { at = λ env w prints. ground (arith, service_codes) }

pub probe_host-Registered : (cfg : Config) (id : String) → Registered (probe_host cfg id)
unfolding probe_host
probe_host-Registered cfg id =
    bind-Registered (with_uow (require_host id)) _
      (record { at = λ env w prints. ground (arith, service_codes) })
      λ host.
        bind-Registered
          (Client.run cfg ("host" ∷ "probe" ∷ "--data-root" ∷ host.data_root ∷ "--json" ∷ [])) _
          (run-Registered cfg _) λ x. record { at = λ env w prints. ground arith }

pub check_model_root-Registered :
    (cfg : Config) (id : String) → Registered (check_model_root cfg id)
unfolding check_model_root
check_model_root-Registered cfg id = record {
  at = λ env w prints. ground (arith, service_codes, (run-Registered cfg _).at env w prints);
}

pub check_roots-Registered :
    (host_id : String) (ids : List String) → Registered (check_roots host_id ids)
unfolding check_roots
check_roots-Registered host_id [] = pure-Registered _
check_roots-Registered host_id (id ∷ ids) = record {
  at = λ env w prints.
      ground (arith, service_codes, (check_roots-Registered host_id ids).at env w prints);
}

pub resolve_comfy_ref-Registered :
    (cfg : Config) (id ref : Option String) → Registered (resolve_comfy_ref cfg id ref)
unfolding resolve_comfy_ref
resolve_comfy_ref-Registered cfg id ref = record {
  at = λ env w prints. ground (arith, service_codes);
}

chosen_roots-Registered :
    (host_id : String) (ids : List String) → Registered (chosen_roots host_id ids)
unfolding chosen_roots Repository.list_model_roots
chosen_roots-Registered host_id [] = record { at = λ env w prints. refl }
chosen_roots-Registered host_id (id ∷ ids) = record { at = λ env w prints. refl }

pub check_primary-Registered :
    (primary : Option String) (ids : List String) → Registered (check_primary primary ids)
check_primary-Registered none ids = record { at = λ env w prints. refl }
check_primary-Registered (some p) ids = record {
  at = λ env w prints. ground (arith, service_codes);
}

pick_roots-Registered : (req : InstanceCreateRequest) → Registered (pick_roots req)
unfolding pick_roots Repository.get_by_host_slug
pick_roots-Registered req =
    bind-Registered (require_host req.host_id) _
      (record { at = λ env w prints. ground (arith, service_codes) })
      λ host.
        bind-Registered (Repository.get_by_host_slug req.host_id req.instance_slug) _
          (record { at = λ env w prints. refl })
          λ same.
            bind-Registered
              (raise_if (is_some same) "INSTANCE_SLUG_CONFLICT"
                (field "instance_slug" (str req.instance_slug) end))
              _ (record { at = λ env w prints. ground (arith, service_codes) })
              λ u.
                bind-Registered (chosen_roots req.host_id req.model_root_ids) _
                  (chosen_roots-Registered req.host_id req.model_root_ids)
                  λ ids.
                    bind-Registered
                      (check_primary (primary_or_first req.primary_model_root_id ids) ids) _
                      (check_primary-Registered _ ids)
                      λ u'.
                        bind-Registered (check_roots req.host_id ids) _
                          (check_roots-Registered req.host_id ids)
                          λ u''.
                            pure-Registered
                              (host, ids, primary_or_first req.primary_model_root_id ids)

resolve_runtime-Registered :
    (cfg : Config) (id version profile : Option String)
    → Registered (resolve_runtime cfg id version profile)
unfolding resolve_runtime
resolve_runtime-Registered cfg id version profile = record {
  at = λ env w prints. ground (arith, service_codes);
}

plan_instance-Registered :
    (cfg : Config) (req : InstanceCreateRequest) → Registered (plan_instance cfg req)
unfolding plan_instance
plan_instance-Registered cfg req =
    bind-Registered (pick_roots req) _ (pick_roots-Registered req) λ x.
      bind-Registered (resolve_comfy_ref cfg req.comfy_version_id req.comfy_ref) _
        (resolve_comfy_ref-Registered cfg req.comfy_version_id req.comfy_ref)
        λ ref.
          bind-Registered
            (resolve_runtime cfg req.runtime_profile_id req.python_version req.torch_profile) _
            (resolve_runtime-Registered cfg req.runtime_profile_id req.python_version
              req.torch_profile)
            λ y. pure-Registered (
              x.0,
              x.1,
              record {
                host_id = req.host_id;
                name = req.name;
                instance_slug = req.instance_slug;
                comfy_ref = ref;
                python_version = y.0;
                torch_profile = y.1;
                comfy_port = port_or req.comfy_port cfg.settings.instance_port_start;
                gpu_ids = req.gpu_ids;
                primary_model_root_id = x.2;
              },
            )

store_instance-Registered :
    (row : NewInstance) (ids : List String) → Registered (store_instance row ids)
unfolding store_instance
store_instance-Registered row ids = record { at = λ env w prints. ground arith }

pub create_instance-Registered :
    (cfg : Config) (req : InstanceCreateRequest) → Registered (create_instance cfg req)
unfolding create_instance
create_instance-Registered cfg req = uow-Registered _ (
    bind-Registered (plan_instance cfg req) _ (plan_instance-Registered cfg req) λ x.
      bind-Registered (store_instance x.2 x.1) _ (store_instance-Registered x.2 x.1)
        λ row. record { at = λ env w prints. refl })
