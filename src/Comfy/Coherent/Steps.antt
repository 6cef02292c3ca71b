-- ===== src/Comfy/Coherent/Steps.antt =====
-- The guarantee for the parts that the methods of app/services/comfy_service.py share.
use comfy_shell_v.Prelude.{String, Option, some, List, ◌≡◌, refl, arith}
use comfy_shell_v.Prelude.Json.{Fields}
use comfy_shell_v.Db.{Host, Instance, CommandKind}
use comfy_shell_v.Uow.{Env, World, CommandResult, pure, on_app_error}
use comfy_shell_v.Uow.Rules.{found}
use comfy_shell_v.Comfy.Config.{Config}
use comfy_shell_v.Comfy.Client
use comfy_shell_v.Comfy.Client.{get_data, get_str}
use comfy_shell_v.Comfy.Instances.{Context, instance_context, get_instance, require_stopped}
use comfy_shell_v.Comfy.Runs.{record_run, finish_run, fail_run, run_recorded, get_run}
use comfy_shell_v.Comfy.Operations.{recorded}
use comfy_shell_v.Comfy.Coherent.Methods.{
  Keeps, Keeps-bind, Keeps-on_app_error, still-Keeps, Keeps-transaction,
}
use comfy_shell_v.Comfy.Coherent.Transactions.{
  same-Guarantee, eq-Guarantee, instance_context-committed, record_run-SameRows,
  finish_run-SameRows, fail_run-SameRows, get_run-committed,
}

pub context-Keeps : (id : String) → Keeps (instance_context id)
context-Keeps id =
    Keeps-transaction _
      (λ env w. eq-Guarantee (found env w) _ (instance_context-committed id env w))

pub get_run-Keeps : (id : String) → Keeps (get_run id)
get_run-Keeps id =
    Keeps-transaction _ (λ env w. eq-Guarantee (found env w) _ (get_run-committed id env w))

record_run-Keeps :
    (host_id : String) (instance_id : Option String) (kind : CommandKind)
    → Keeps (record_run host_id instance_id kind)
record_run-Keeps host_id instance_id kind =
    Keeps-transaction _
      (λ env w. same-Guarantee (found env w) _ (record_run-SameRows host_id instance_id kind env w))

finish_run-Keeps :
    (run_id : String) (payload : Fields) (result : CommandResult)
    → Keeps (finish_run run_id payload result)
finish_run-Keeps run_id payload result =
    Keeps-transaction _
      (λ env w. same-Guarantee (found env w) _ (finish_run-SameRows run_id payload result env w))

-- A run of the command line writes nothing.
pub client-committed :
    (cfg : Config) (args : List String) (env : Env) (w : World)
    → (Client.run cfg args env w).1.committed ≡ w.committed
unfolding Client.run
client-committed cfg args env w = ground arith

pub client-Keeps : (cfg : Config) (args : List String) → Keeps (Client.run cfg args)
client-Keeps cfg args = still-Keeps _ (client-committed cfg args)

fail_run-Keeps {ℓ} :
    {A : Type ℓ} (run_id code : String) (details : Fields)
    → Keeps (fail_run {A = A} run_id code details)
fail_run-Keeps {A} run_id code details =
    Keeps-transaction _
      (λ env w. same-Guarantee (found env w) _ (fail_run-SameRows A run_id code details env w))

pub run_recorded-Keeps :
    (cfg : Config) (run_id : String) (args : List String) → Keeps (run_recorded cfg run_id args)
unfolding run_recorded
run_recorded-Keeps cfg run_id args =
    Keeps-bind (on_app_error (Client.run cfg args) (fail_run run_id)) _
      (Keeps-on_app_error (Client.run cfg args) (fail_run run_id) (client-Keeps cfg args)
        (fail_run-Keeps run_id))
      λ x.
        Keeps-bind (finish_run run_id x.0 x.1) _ (finish_run-Keeps run_id x.0 x.1)
          λ u. still-Keeps (pure (x.0, x.1)) (λ env w. refl)

pub recorded-Keeps :
    (cfg : Config) (ctx : Context) (kind : CommandKind) (args : List String)
    → Keeps (recorded cfg ctx kind args)
recorded-Keeps cfg ctx kind args =
    Keeps-bind (record_run ctx.host.id (some ctx.row.id) kind) _
      (record_run-Keeps ctx.host.id (some ctx.row.id) kind)
      λ run_id.
        Keeps-bind (run_recorded cfg run_id args) _ (run_recorded-Keeps cfg run_id args)
          λ x. still-Keeps _ (λ env w. ground arith)

pub require_stopped-committed :
    (cfg : Config) (host : Host) (row : Instance) (env : Env) (w : World)
    → (require_stopped cfg host row env w).1.committed ≡ w.committed
unfolding require_stopped
require_stopped-committed cfg host row env w = ground arith

pub get_instance-Keeps : (cfg : Config) (id : String) → Keeps (get_instance cfg id)
unfolding get_instance
get_instance-Keeps cfg id =
    Keeps-bind (instance_context id) _ (context-Keeps id) λ ctx. still-Keeps _ (λ env w. refl)
