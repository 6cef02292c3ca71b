-- ===== src/Comfy/Operations/Install.antt =====
-- What an install of app/services/comfy_service.py leaves behind when no other request commits.
use comfy_shell_v.Prelude.{String, true, false, ◌≡◌, subst, arith, some, List, find, inl, inr}
use comfy_shell_v.Prelude.Json.{Fields}
use comfy_shell_v.Db.{CommandRun, CommandKind, completed}
use comfy_shell_v.Uow.{Env, World, CommandResult, ok}
use comfy_shell_v.Uow.Rules.{is_ok, found, IsQuiet, Result-cases}
use comfy_shell_v.Comfy.Config.{Config}
use comfy_shell_v.Comfy.Client
use comfy_shell_v.Comfy.Repository
use comfy_shell_v.Comfy.Repository.Runs.{run_with_id, get}
use comfy_shell_v.Comfy.Responses.{RunResponse}
use comfy_shell_v.Comfy.Runs.{record_run, run_recorded, get_run}
use comfy_shell_v.Comfy.Runs.Closing.{answers}
use comfy_shell_v.Comfy.Instances.{Context, instance_context, require_stopped}
use comfy_shell_v.Comfy.Operations.{
  recorded, install_instance, install_args, install_ref, InstanceInstallRequest, write_install,
  install_at,
}
use comfy_shell_v.Comfy.Operations.Outcome.{
  RunAt, IsCompleted, recorded-RunAt, get_run-IsCompleted, instance_context-id,
}
use comfy_shell_v.Comfy.Coherent.Steps.{client-committed, require_stopped-committed}
use comfy_shell_v.Comfy.Coherent.Transactions.{
  instance_context-committed, record_run-SameRows, finish_run-SameRows, fail_run-SameRows,
}
use comfy_shell_v.Comfy.Coherent.Run.{install_ref-committed}

run_recorded-instances :
    (cfg : Config) (run_id : String) (args : List String) (env : Env) (w : World)
    → IsQuiet env
    → (run_recorded cfg run_id args env w).1.committed.instances ≡ w.committed.instances
unfolding run_recorded
run_recorded-instances cfg run_id args env w quiet =
    let c = Client.run cfg args env w in
    let same = client-committed cfg args env w in
    let still = quiet c.1.tick c.1.committed in
    elim (answers c.0) [
      | inl ((payload, result), e) ↦
          ground (arith, same, still, finish_run-SameRows run_id payload result env c.1)
      | inr (inl (code, details, e)) ↦ ground (
        arith,
        same,
        still,
        fail_run-SameRows (Fields × CommandResult) run_id code details env c.1,
      )
      | inr (inr (inl (orig, e))) ↦ ground (arith, same)
      | inr (inr (inr e)) ↦ ground (arith, same)
    ]

recorded-instances :
    (cfg : Config) (ctx : Context) (kind : CommandKind) (args : List String) (env : Env) (w : World)
    → IsQuiet env
    → (recorded cfg ctx kind args env w).1.committed.instances ≡ w.committed.instances
recorded-instances cfg ctx kind args env w quiet =
    let a = record_run ctx.host.id (some ctx.row.id) kind env w in
    let same = record_run-SameRows ctx.host.id (some ctx.row.id) kind env w in
    let still = quiet w.tick w.committed in
    elim (Result-cases a.0) [
      | inr e ↦ ground (arith, same, still)
      | inl (run_id, e) ↦
          ground (arith, same, still, run_recorded-instances cfg run_id args env a.1 quiet)
    ]

get_run-ok :
    (id : String) (env : Env) (w : World) (r : CommandRun)
    → IsQuiet env
    → find (run_with_id id) w.committed.command_runs ≡ some r
    → is_ok (get_run id env w).0 ≡ true
unfolding get_run get
get_run-ok id env w r quiet here = ground (arith, here, quiet w.tick w.committed)

write_install-atomic :
    (id comfy_ref : String) (payload : Fields) (env : Env) (w : World)
    → is_ok (write_install id comfy_ref payload env w).0 ≡ false
    → (write_install id comfy_ref payload env w).1.committed ≡ found env w
unfolding Repository.update_install_result
write_install-atomic id comfy_ref payload env w h = ground arith

write_install-runs :
    (id comfy_ref : String) (payload : Fields) (env : Env) (w : World)
    → (write_install id comfy_ref payload env w).1.committed.command_runs
      ≡ (found env w).command_runs
unfolding Repository.update_install_result
write_install-runs id comfy_ref payload env w = ground arith

installed-unchanged :
    (cfg : Config) (ctx : Context) (req : InstanceInstallRequest) (kind : CommandKind)
    (id comfy_ref : String) (env : Env) (w : World)
    → IsQuiet env
    → req.restart ≡ false
    → is_ok (install_at cfg ctx req kind id comfy_ref env w).0 ≡ false
    → (install_at cfg ctx req kind id comfy_ref env w).1.committed.instances ≡ w.committed.instances
installed-unchanged cfg ctx req kind id comfy_ref env w quiet plain h =
    let args = install_args cfg ctx.host ctx.row comfy_ref in
    let a = recorded cfg ctx kind args env w in
    let same = recorded-instances cfg ctx kind args env w quiet in
    elim (Result-cases a.0) [
      | inr e ↦ ground (arith, same)
      | inl ((run_id, payload), e) ↦
          let at = recorded-RunAt cfg ctx kind args env w run_id payload quiet e in
          let b = write_install ctx.row.id comfy_ref payload env a.1 in
          let still = quiet a.1.tick a.1.committed in
          elim (Result-cases b.0) [
            | inr e' ↦
                ground
                  (arith, same, still, write_install-atomic ctx.row.id comfy_ref payload env a.1 e')
            | inl (u, e') ↦
                let kept : find (run_with_id run_id) b.1.committed.command_runs ≡ some at.run =
                  ground (
                    arith,
                    still,
                    at.here,
                    write_install-runs ctx.row.id comfy_ref payload env a.1,
                  ) in
                let got = get_run-ok run_id env b.1 at.run quiet kept in
                absurd (ground (arith, got, plain))
          ]
    ]

-- When no other request commits, an install or reinstall without a restart that does not return
-- leaves the table of instances as it was.
pub install_instance-unchanged :
    (cfg : Config) (id : String) (req : InstanceInstallRequest) (kind : CommandKind) (env : Env)
    (w : World)
    → IsQuiet env
    → req.restart ≡ false
    → is_ok (install_instance cfg id req kind env w).0 ≡ false
    → (install_instance cfg id req kind env w).1.committed.instances ≡ w.committed.instances
unfolding install_instance
install_instance-unchanged cfg id req kind env w quiet plain h =
    let a = instance_context id env w in
    let same = instance_context-committed id env w in
    let still = quiet w.tick w.committed in
    elim (Result-cases a.0) [
      | inr e ↦ ground (arith, same, still)
      | inl (ctx, e) ↦
          let b = require_stopped cfg ctx.host ctx.row env a.1 in
          let same_b = require_stopped-committed cfg ctx.host ctx.row env a.1 in
          elim (Result-cases b.0) [
            | inr e' ↦ ground (arith, same, still, same_b)
            | inl (u, e') ↦
                let c = install_ref cfg ctx.row req env b.1 in
                let same_c = install_ref-committed cfg ctx.row req env b.1 in
                elim (Result-cases c.0) [
                  | inr e'' ↦ ground (arith, same, still, same_b, same_c)
                  | inl (comfy_ref, e'') ↦ ground (
                    arith,
                    same,
                    still,
                    same_b,
                    same_c,
                    installed-unchanged cfg ctx req kind id comfy_ref env c.1 quiet plain
                        (ground arith),
                  )
                ]
          ]
    ]

installed-IsCompleted :
    (cfg : Config) (ctx : Context) (req : InstanceInstallRequest) (kind : CommandKind)
    (id comfy_ref : String) (env : Env) (w : World) (resp : RunResponse)
    → IsQuiet env
    → req.restart ≡ false
    → (install_at cfg ctx req kind id comfy_ref env w).0 ≡ ok resp
    → IsCompleted resp kind ctx.row.id
installed-IsCompleted cfg ctx req kind id comfy_ref env w resp quiet plain h =
    let args = install_args cfg ctx.host ctx.row comfy_ref in
    let a = recorded cfg ctx kind args env w in
    elim (Result-cases a.0) [
      | inr e ↦ absurd (ground arith)
      | inl ((run_id, payload), e) ↦
          let at = recorded-RunAt cfg ctx kind args env w run_id payload quiet e in
          let b = write_install ctx.row.id comfy_ref payload env a.1 in
          elim (Result-cases b.0) [
            | inr e' ↦ absurd (ground arith)
            | inl (u, e') ↦
                let kept : RunAt b.1.committed run_id kind (some ctx.row.id) completed = record {
                  run = at.run;
                  of_kind = at.of_kind;
                  of_instance = at.of_instance;
                  in_phase = at.in_phase;
                  here = ground (
                    arith,
                    quiet a.1.tick a.1.committed,
                    at.here,
                    write_install-runs ctx.row.id comfy_ref payload env a.1,
                  );
                } in
                get_run-IsCompleted run_id kind ctx.row.id env b.1 resp quiet kept
                  (ground (arith, plain))
          ]
    ]

-- When no other request commits, an install or reinstall without a restart that returns answers
-- with a completed run of that kind of the instance.
pub install_instance-IsCompleted :
    (cfg : Config) (id : String) (req : InstanceInstallRequest) (kind : CommandKind) (env : Env)
    (w : World) (resp : RunResponse)
    → IsQuiet env
    → req.restart ≡ false
    → (install_instance cfg id req kind env w).0 ≡ ok resp
    → IsCompleted resp kind id
unfolding install_instance
install_instance-IsCompleted cfg id req kind env w resp quiet plain h =
    let a = instance_context id env w in
    elim (Result-cases a.0) [
      | inr e ↦ absurd (ground arith)
      | inl (ctx, e) ↦
          let b = require_stopped cfg ctx.host ctx.row env a.1 in
          elim (Result-cases b.0) [
            | inr e' ↦ absurd (ground arith)
            | inl (u, e') ↦
                let c = install_ref cfg ctx.row req env b.1 in
                elim (Result-cases c.0) [
                  | inr e'' ↦ absurd (ground arith)
                  | inl (comfy_ref, e'') ↦
                      subst (IsCompleted resp kind) (instance_context-id id env w ctx e) (
                        installed-IsCompleted cfg ctx req kind id comfy_ref env c.1 resp quiet plain
                          (ground arith))
                ]
          ]
    ]
