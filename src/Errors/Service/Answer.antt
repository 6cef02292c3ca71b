-- ===== src/Errors/Service/Answer.antt =====
-- The codes of the requests of ComfyService, and the envelopes of their AppErrors.
use comfy_shell_v.Prelude.{ℕ, String, ◌≡◌, arith, Option, none, List, sym, ap, ◌∙◌}
use comfy_shell_v.Prelude.Json.{Fields}
use comfy_shell_v.Db.{Host, Instance, install, reinstall}
use comfy_shell_v.Uow.{Env, World, Action, app_error, pure, ◌>>◌}
use comfy_shell_v.Uow.Rules.{opened}
use comfy_shell_v.Comfy.Config.{Config}
use comfy_shell_v.Comfy.Instances.{Context, check_primary, instance_context, require_stopped}
use comfy_shell_v.Comfy.Launch.{
  LaunchConfigUpdate, check_update, final_primary, sent_or, write_launch_config,
  apply_launch_config, update_instance_launch_config,
}
use comfy_shell_v.Comfy.Requests.{Request, handle}
use comfy_shell_v.Errors.{ErrorEnvelope, done, error_envelope}
use comfy_shell_v.Errors.Codes.{service_codes, error_envelope-is_registered}
use comfy_shell_v.Errors.Service.{
  Registered, PrintsRegistered, code_ok, bind-Registered, pure-Registered,
}
use comfy_shell_v.Errors.Service.Commands.{require_stopped-Registered}
use comfy_shell_v.Errors.Service.Reads.{
  get_run-Registered, list_runs-Registered, list_hosts-Registered, list_model_roots-Registered,
  context-Registered, get_instance-Registered, list_instances-Registered,
}
use comfy_shell_v.Errors.Service.Writes.{
  create_host-Registered, create_model_root-Registered, probe_host-Registered,
  check_model_root-Registered, check_roots-Registered, check_primary-Registered,
  create_instance-Registered,
}
use comfy_shell_v.Errors.Service.Operations.{
  start_instance-Registered, stop_instance-Registered, install_instance-Registered,
  status_instance-Registered, ready_instance-Registered, logs_instance-Registered,
}

check_update-Registered : (req : LaunchConfigUpdate) → Registered (check_update req)
unfolding check_update
check_update-Registered req = record { at = λ env w prints. ground (arith, service_codes) }

write_launch_config-Registered :
    (host : Host) (row : Instance) (req : LaunchConfigUpdate) (ids : List String)
    (primary : Option String)
    → Registered (write_launch_config host row req ids primary)
unfolding write_launch_config
write_launch_config-Registered host row req ids primary = record {
  at = λ env w prints.
      ground
        (arith, service_codes, (check_roots-Registered host.id ids).at env (opened env w) prints);
}

apply_launch_config-Registered :
    (cfg : Config) (req : LaunchConfigUpdate) (ctx : Context)
    → Registered (apply_launch_config cfg req ctx)
unfolding apply_launch_config
apply_launch_config-Registered cfg req ctx =
    let ids = sent_or req.model_root_ids ctx.model_root_ids in
    let primary = final_primary req.primary_model_root_id ctx.row.primary_model_root_id ids in
    bind-Registered (require_stopped cfg ctx.host ctx.row) _
      (require_stopped-Registered cfg ctx.host ctx.row)
      λ u. bind-Registered (check_primary primary ids) _ (check_primary-Registered primary ids) λ v.
        bind-Registered (write_launch_config ctx.host ctx.row req ids primary) _
          (write_launch_config-Registered ctx.host ctx.row req ids primary)
          λ t. get_instance-Registered cfg ctx.row.id

update_instance_launch_config-Registered :
    (cfg : Config) (id : String) (req : LaunchConfigUpdate)
    → Registered (update_instance_launch_config cfg id req)
unfolding update_instance_launch_config
update_instance_launch_config-Registered cfg id req =
    bind-Registered (check_update req) _ (check_update-Registered req) λ u.
      bind-Registered (instance_context id) _ (context-Registered id)
        λ ctx. apply_launch_config-Registered cfg req ctx

forget-Registered {ℓ} : {A : Type ℓ} (m : Action A) → Registered m → Registered (m >> pure (tt {0}))
forget-Registered m h = bind-Registered m (λ a. pure tt) h λ a. pure-Registered (tt {0})

handle-Registered : (cfg : Config) (req : Request) → Registered (handle cfg req)
unfolding handle
handle-Registered cfg Request.list_hosts = forget-Registered _ (list_hosts-Registered cfg)
handle-Registered cfg (Request.create_host req) =
    forget-Registered _ (create_host-Registered cfg req)
handle-Registered cfg (Request.probe_host id) = forget-Registered _ (probe_host-Registered cfg id)
handle-Registered cfg (Request.list_model_roots host_id) =
    forget-Registered _ (list_model_roots-Registered cfg host_id)
handle-Registered cfg (Request.create_model_root req) =
    forget-Registered _ (create_model_root-Registered req)
handle-Registered cfg (Request.check_model_root id) =
    forget-Registered _ (check_model_root-Registered cfg id)
handle-Registered cfg (Request.list_instances host_id) =
    forget-Registered _ (list_instances-Registered cfg host_id)
handle-Registered cfg (Request.create_instance req) =
    forget-Registered _ (create_instance-Registered cfg req)
handle-Registered cfg (Request.get_instance id) =
    forget-Registered _ (get_instance-Registered cfg id)
handle-Registered cfg (Request.update_launch_config id req) =
    forget-Registered _ (update_instance_launch_config-Registered cfg id req)
handle-Registered cfg (Request.install_instance id req) =
    forget-Registered _ (install_instance-Registered cfg id req install)
handle-Registered cfg (Request.reinstall_instance id req) =
    forget-Registered _ (install_instance-Registered cfg id req reinstall)
handle-Registered cfg (Request.start_instance id) =
    forget-Registered _ (start_instance-Registered cfg id)
handle-Registered cfg (Request.stop_instance id) =
    forget-Registered _ (stop_instance-Registered cfg id)
handle-Registered cfg (Request.status_instance id) =
    forget-Registered _ (status_instance-Registered cfg id)
handle-Registered cfg (Request.ready_instance id) =
    forget-Registered _ (ready_instance-Registered cfg id)
handle-Registered cfg (Request.logs_instance id tail) =
    forget-Registered _ (logs_instance-Registered cfg id tail)
handle-Registered cfg (Request.list_runs instance_id) =
    forget-Registered _ (list_runs-Registered instance_id)
handle-Registered cfg (Request.get_run id) = forget-Registered _ (get_run-Registered id)

-- Where the command line prints registered error codes only, each AppError that a request of
-- ComfyService raises is turned into an envelope with the same code: error_envelope does not raise.
pub handle-error_envelope :
    (cfg : Config) (req : Request) (env : Env) (w : World) (code : String) (details : Fields)
    → PrintsRegistered env
    → (handle cfg req env w).0 ≡ app_error code details
    → (n : ℕ) × (body : ErrorEnvelope) × (error_envelope code none details ≡ done (n, body))
      × (body.code ≡ code)
handle-error_envelope cfg req env w code details prints h =
    error_envelope-is_registered code none details
      (ap code_ok (sym h) ∙ (handle-Registered cfg req).at env w prints)
