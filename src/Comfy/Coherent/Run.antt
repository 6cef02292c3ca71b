-- ===== src/Comfy/Coherent/Run.antt =====
-- The guarantee for the requests of ComfyService, one by one, and for runs of them.
use comfy_shell_v.Prelude.{String, List, [], ◌∷◌, ◌≡◌, refl, arith, Bool, true, false}
use comfy_shell_v.Db.{Instance, CommandKind, install, reinstall}
use comfy_shell_v.Uow.{Env, World, Action, pure, ◌>>◌}
use comfy_shell_v.Comfy.Config.{Config}
use comfy_shell_v.Comfy.Resolve.{resolve_comfy_ref}
use comfy_shell_v.Comfy.Instances.{
  instance_context, require_stopped, create_instance, InstanceCreateRequest,
}
use comfy_shell_v.Comfy.Operations.{
  recorded, start_instance, start_args, stop_instance, install_instance, install_args, install_ref,
  InstanceInstallRequest, mark_launched, write_install, restart_if,
}
use comfy_shell_v.Comfy.Requests.{Request, handle, serve}
use comfy_shell_v.Comfy.Coherent.{IsCoherent, Guarantee, Guarantee-refl, Guarantee-trans, Rely}
use comfy_shell_v.Comfy.Coherent.Methods.{Keeps, Keeps-bind, still-Keeps, Keeps-transaction}
use comfy_shell_v.Comfy.Coherent.Transactions.{mark_launched-Guarantee, write_install-Guarantee}
use comfy_shell_v.Comfy.Coherent.Creation.{create_instance-Guarantee}
use comfy_shell_v.Comfy.Coherent.Steps.{
  context-Keeps, get_run-Keeps, recorded-Keeps, require_stopped-committed, get_instance-Keeps,
}
use comfy_shell_v.Comfy.Coherent.Launch.{update_instance_launch_config-Keeps}
use comfy_shell_v.Comfy.Coherent.Additions.{create_host-Keeps, create_model_root-Keeps}
use comfy_shell_v.Comfy.Coherent.Queries.{
  list_hosts-Keeps, list_model_roots-Keeps, list_runs-Keeps, list_instances-Keeps, probe_host-Keeps,
  check_model_root-Keeps, status_instance-Keeps, ready_instance-Keeps, logs_instance-Keeps,
}

stop_instance-Keeps : (cfg : Config) (id : String) → Keeps (stop_instance cfg id)
unfolding stop_instance
stop_instance-Keeps cfg id = Keeps-bind (instance_context id) _ (context-Keeps id) λ ctx.
    Keeps-bind (recorded cfg ctx CommandKind.stop _) _ (recorded-Keeps cfg ctx _ _)
      λ x. get_run-Keeps x.0

start_instance-Keeps : (cfg : Config) (id : String) → Keeps (start_instance cfg id)
unfolding start_instance
start_instance-Keeps cfg id = Keeps-bind (instance_context id) _ (context-Keeps id) λ ctx.
    Keeps-bind (recorded cfg ctx CommandKind.start (start_args cfg ctx)) _
      (recorded-Keeps cfg ctx _ _)
      λ x.
        Keeps-bind (mark_launched ctx.row.id) _
          (Keeps-transaction _ (mark_launched-Guarantee ctx.row.id)) λ u. get_run-Keeps x.0

pub install_ref-committed :
    (cfg : Config) (row : Instance) (req : InstanceInstallRequest) (env : Env) (w : World)
    → (install_ref cfg row req env w).1.committed ≡ w.committed
unfolding resolve_comfy_ref
install_ref-committed cfg row req env w = ground arith

restart_if-Keeps : (cfg : Config) (id : String) (restart : Bool) → Keeps (restart_if cfg id restart)
restart_if-Keeps cfg id false = still-Keeps _ (λ env w. refl)
restart_if-Keeps cfg id true =
    Keeps-bind (start_instance cfg id) _ (start_instance-Keeps cfg id)
      λ r. still-Keeps (pure (tt {0})) (λ env w. refl)

install_instance-Keeps :
    (cfg : Config) (id : String) (req : InstanceInstallRequest) (kind : CommandKind)
    → Keeps (install_instance cfg id req kind)
unfolding install_instance
install_instance-Keeps cfg id req kind =
    Keeps-bind (instance_context id) _ (context-Keeps id) λ ctx.
      Keeps-bind (require_stopped cfg ctx.host ctx.row) _
        (still-Keeps _ (require_stopped-committed cfg ctx.host ctx.row))
        λ u.
          Keeps-bind (install_ref cfg ctx.row req) _
            (still-Keeps _ (install_ref-committed cfg ctx.row req))
            λ comfy_ref.
              Keeps-bind (recorded cfg ctx kind (install_args cfg ctx.host ctx.row comfy_ref)) _
                (recorded-Keeps cfg ctx _ _)
                λ x.
                  Keeps-bind (write_install ctx.row.id comfy_ref x.1) _
                    (Keeps-transaction _ (write_install-Guarantee ctx.row.id comfy_ref x.1))
                    λ v.
                      Keeps-bind (restart_if cfg id req.restart) _
                        (restart_if-Keeps cfg id req.restart) λ t. get_run-Keeps x.0

create_instance-Keeps :
    (cfg : Config) (req : InstanceCreateRequest) → Keeps (create_instance cfg req)
create_instance-Keeps cfg req = Keeps-transaction _ (create_instance-Guarantee cfg req)

forget-Keeps {ℓ} : {A : Type ℓ} (m : Action A) → Keeps m → Keeps (m >> pure (tt {0}))
forget-Keeps m h = Keeps-bind m (λ a. pure tt) h λ a. still-Keeps (pure (tt {0})) (λ env w. refl)

-- Whatever a request does, and whether it returns or fails, it keeps every instance coherent with
-- its model roots and on its host, if the other requests do.
pub handle-Keeps : (cfg : Config) (req : Request) → Keeps (handle cfg req)
unfolding handle
handle-Keeps cfg Request.list_hosts = forget-Keeps _ (list_hosts-Keeps cfg)
handle-Keeps cfg (Request.create_host req) = forget-Keeps _ (create_host-Keeps cfg req)
handle-Keeps cfg (Request.probe_host id) = forget-Keeps _ (probe_host-Keeps cfg id)
handle-Keeps cfg (Request.list_model_roots host_id) =
    forget-Keeps _ (list_model_roots-Keeps cfg host_id)
handle-Keeps cfg (Request.create_model_root req) = forget-Keeps _ (create_model_root-Keeps req)
handle-Keeps cfg (Request.check_model_root id) = forget-Keeps _ (check_model_root-Keeps cfg id)
handle-Keeps cfg (Request.list_instances host_id) =
    forget-Keeps _ (list_instances-Keeps cfg host_id)
handle-Keeps cfg (Request.create_instance req) = forget-Keeps _ (create_instance-Keeps cfg req)
handle-Keeps cfg (Request.get_instance id) = forget-Keeps _ (get_instance-Keeps cfg id)
handle-Keeps cfg (Request.update_launch_config id req) =
    forget-Keeps _ (update_instance_launch_config-Keeps cfg id req)
handle-Keeps cfg (Request.install_instance id req) =
    forget-Keeps _ (install_instance-Keeps cfg id req install)
handle-Keeps cfg (Request.reinstall_instance id req) =
    forget-Keeps _ (install_instance-Keeps cfg id req reinstall)
handle-Keeps cfg (Request.start_instance id) = forget-Keeps _ (start_instance-Keeps cfg id)
handle-Keeps cfg (Request.stop_instance id) = forget-Keeps _ (stop_instance-Keeps cfg id)
handle-Keeps cfg (Request.status_instance id) = forget-Keeps _ (status_instance-Keeps cfg id)
handle-Keeps cfg (Request.ready_instance id) = forget-Keeps _ (ready_instance-Keeps cfg id)
handle-Keeps cfg (Request.logs_instance id tail) = forget-Keeps _ (logs_instance-Keeps cfg id tail)
handle-Keeps cfg (Request.list_runs instance_id) = forget-Keeps _ (list_runs-Keeps instance_id)
handle-Keeps cfg (Request.get_run id) = forget-Keeps _ (get_run-Keeps id)

serve-Guarantee :
    (cfg : Config) (reqs : List Request) (env : Env) (w : World)
    → Rely env
    → Guarantee w.committed (serve cfg reqs env w).committed
unfolding serve
serve-Guarantee cfg [] env w rely = Guarantee-refl w.committed
serve-Guarantee cfg (req ∷ rest) env w rely =
    let (_, w') = handle cfg req env w in
    Guarantee-trans w.committed w'.committed (serve cfg rest env w').committed
      ((handle-Keeps cfg req).at env w rely) (serve-Guarantee cfg rest env w' rely)

-- From a coherent database, after any requests, returning or failing, and with any requests of
-- others that, between their transactions, keep coherence and leave instances on their hosts, every
-- instance has model roots of its own host only, and its primary root, where it has one, is one of
-- them.
pub serve-IsCoherent :
    (cfg : Config) (reqs : List Request) (env : Env) (w : World)
    → Rely env
    → IsCoherent w.committed
    → IsCoherent (serve cfg reqs env w).committed
serve-IsCoherent cfg reqs env w rely h = (serve-Guarantee cfg reqs env w rely).coherent h
