-- ===== src/Errors/Service/Operations.antt =====
-- The codes of the calls that drive an instance through the command line.
use comfy_shell_v.Prelude.{
  ℕ, String, Bool, true, false, ◌≡◌, refl, arith, Option, some, List, [], ◌∷◌, inl, inr,
}
use comfy_shell_v.Prelude.Json.{Fields, Json, fields}
use comfy_shell_v.Db.{CommandKind, start, stop, Instance}
use comfy_shell_v.Uow.{Env, World, CommandResult, ok}
use comfy_shell_v.Uow.Rules.{Result-cases, is_ok}
use comfy_shell_v.Comfy.Config.{Config}
use comfy_shell_v.Comfy.Client
use comfy_shell_v.Comfy.Client.{get_str}
use comfy_shell_v.Comfy.Repository
use comfy_shell_v.Prelude.Decimal.{show_ℕ}
use comfy_shell_v.Prelude.Dict.{get}
use comfy_shell_v.Comfy.Instances.{
  Context, instance_context, require_stopped, status_payload, instance_args, address_args,
}
use comfy_shell_v.Comfy.Runs.{record_run, run_recorded, finish_run, fail_run}
use comfy_shell_v.Comfy.Runs.Closing.{answers}
use comfy_shell_v.Comfy.Resolve.{resolve_comfy_ref}
use comfy_shell_v.Comfy.Operations.{
  recorded, start_instance, start_args, stop_instance, mark_launched, write_install, install_ref,
  install_args, restart_if, install_instance, InstanceInstallRequest, status_instance,
  ready_instance, logs_instance, InstanceLogsResponse, texts, list_of,
}
use comfy_shell_v.Errors.Codes.{is_registered, service_codes}
use comfy_shell_v.Errors.Service.{
  Registered, PrintsRegistered, code_ok, code_of, bind-code_ok, bind-Registered, pure-Registered,
}
use comfy_shell_v.Errors.Service.Commands.{
  run-Registered, run-code_of, status_payload-Registered, require_stopped-Registered,
}
use comfy_shell_v.Errors.Service.Reads.{context-Registered, get_run-Registered}

record_run-Registered :
    (host_id : String) (id : Option String) (kind : CommandKind)
    → Registered (record_run host_id id kind)
unfolding record_run
record_run-Registered host_id id kind = record { at = λ env w prints. ground arith }

finish_run-code_ok :
    (id : String) (payload : Fields) (result : CommandResult) (env : Env) (w : World)
    → code_ok (finish_run id payload result env w).0 ≡ true
unfolding finish_run
finish_run-code_ok id payload result env w = ground arith

fail_run-code_ok {ℓ} :
    (A : Type ℓ) (id code : String) (details : Fields) (env : Env) (w : World)
    → code_ok (fail_run {A = A} id code details env w).0 ≡ is_registered code
unfolding fail_run
fail_run-code_ok A id code details env w = ground arith

fail_run-fails {ℓ} :
    (A : Type ℓ) (id code : String) (details : Fields) (env : Env) (w : World)
    → is_ok (fail_run {A = A} id code details env w).0 ≡ false
unfolding fail_run
fail_run-fails A id code details env w = ground arith

-- A recorded run raises what the client raises, and returns only what the client returned.
run_recorded-code_ok :
    (cfg : Config) (id : String) (args : List String) (env : Env) (w : World)
    → PrintsRegistered env
    → code_ok (run_recorded cfg id args env w).0 ≡ true
unfolding run_recorded
run_recorded-code_ok cfg id args env w prints =
    let c = Client.run cfg args env w in
    let good = (run-Registered cfg args).at env w prints in
    elim (answers c.0) [
      | inl ((payload, result), e) ↦ ground (arith, finish_run-code_ok id payload result env c.1)
      | inr (inl (code, details, e)) ↦
          ground (arith, good, fail_run-code_ok (Fields × CommandResult) id code details env c.1)
      | inr (inr (inl (orig, e))) ↦ ground arith
      | inr (inr (inr e)) ↦ ground arith
    ]

run_recorded-code_of :
    (cfg : Config) (id : String) (args : List String) (env : Env) (w : World) (payload : Fields)
    (result : CommandResult)
    → PrintsRegistered env
    → (run_recorded cfg id args env w).0 ≡ ok (payload, result)
    → is_registered (code_of env.repr payload) ≡ true
unfolding run_recorded
run_recorded-code_of cfg id args env w payload result prints h =
    let c = Client.run cfg args env w in
    elim (answers c.0) [
      | inl ((payload', result'), e) ↦
          let f = finish_run id payload' result' env c.1 in
          let same : payload' ≡ payload = elim (Result-cases f.0) [
            | inl (u, done) ↦ ground arith
            | inr failed ↦ absurd (ground (arith, e, failed, h))
          ] in
          ground (arith, same, run-code_of cfg args env w payload' result' prints e)
      | inr (inl (code, details, e)) ↦
          absurd (ground (arith, fail_run-fails (Fields × CommandResult) id code details env c.1))
      | inr (inr (inl (orig, e))) ↦ absurd (ground arith)
      | inr (inr (inr e)) ↦ absurd (ground arith)
    ]

recorded-Registered :
    (cfg : Config) (ctx : Context) (kind : CommandKind) (args : List String)
    → Registered (recorded cfg ctx kind args)
recorded-Registered cfg ctx kind args =
    bind-Registered (record_run ctx.host.id (some ctx.row.id) kind) _
      (record_run-Registered ctx.host.id (some ctx.row.id) kind)
      λ id. record {
        at = λ env w prints.
            bind-code_ok (run_recorded cfg id args) _ env w
              (run_recorded-code_ok cfg id args env w prints)
              (λ x e. ground (arith, run_recorded-code_of cfg id args env w x.0 x.1 prints e));
      }

mark_launched-Registered : (id : String) → Registered (mark_launched id)
unfolding Repository.mark_launched
mark_launched-Registered id = record { at = λ env w prints. ground arith }

write_install-Registered :
    (id ref : String) (payload : Fields) → Registered (write_install id ref payload)
unfolding Repository.update_install_result
write_install-Registered id ref payload = record { at = λ env w prints. ground arith }

install_ref-Registered :
    (cfg : Config) (row : Instance) (req : InstanceInstallRequest)
    → Registered (install_ref cfg row req)
unfolding resolve_comfy_ref
install_ref-Registered cfg row req = record { at = λ env w prints. ground (arith, service_codes) }

pub start_instance-Registered : (cfg : Config) (id : String) → Registered (start_instance cfg id)
unfolding start_instance
start_instance-Registered cfg id =
    bind-Registered (instance_context id) _ (context-Registered id) λ ctx.
      bind-Registered (recorded cfg ctx start (start_args cfg ctx)) _
        (recorded-Registered cfg ctx start (start_args cfg ctx))
        λ x.
          bind-Registered (mark_launched ctx.row.id) _ (mark_launched-Registered ctx.row.id)
            λ u. get_run-Registered x.0

pub stop_instance-Registered : (cfg : Config) (id : String) → Registered (stop_instance cfg id)
unfolding stop_instance
stop_instance-Registered cfg id =
    bind-Registered (instance_context id) _ (context-Registered id) λ ctx.
      bind-Registered
        (recorded cfg ctx stop (instance_args "stop" ctx.host ctx.row ("--json" ∷ []))) _
        (recorded-Registered cfg ctx stop _) λ x. get_run-Registered x.0

restart_if-Registered :
    (cfg : Config) (id : String) (restart : Bool) → Registered (restart_if cfg id restart)
restart_if-Registered cfg id false = record { at = λ env w prints. refl }
restart_if-Registered cfg id true =
    bind-Registered (start_instance cfg id) _ (start_instance-Registered cfg id)
      λ r. pure-Registered (tt {0})

pub install_instance-Registered :
    (cfg : Config) (id : String) (req : InstanceInstallRequest) (kind : CommandKind)
    → Registered (install_instance cfg id req kind)
unfolding install_instance
install_instance-Registered cfg id req kind =
    bind-Registered (instance_context id) _ (context-Registered id) λ ctx.
      bind-Registered (require_stopped cfg ctx.host ctx.row) _
        (require_stopped-Registered cfg ctx.host ctx.row)
        λ u.
          bind-Registered (install_ref cfg ctx.row req) _ (install_ref-Registered cfg ctx.row req)
            λ ref.
              bind-Registered (recorded cfg ctx kind (install_args cfg ctx.host ctx.row ref)) _
                (recorded-Registered cfg ctx kind _)
                λ x.
                  bind-Registered (write_install ctx.row.id ref x.1) _
                    (write_install-Registered ctx.row.id ref x.1)
                    λ v.
                      bind-Registered (restart_if cfg id req.restart) _
                        (restart_if-Registered cfg id req.restart) λ t. get_run-Registered x.0

pub status_instance-Registered : (cfg : Config) (id : String) → Registered (status_instance cfg id)
unfolding status_instance
status_instance-Registered cfg id =
    bind-Registered (instance_context id) _ (context-Registered id) λ ctx.
      bind-Registered (status_payload cfg ctx.host ctx.row) _
        (status_payload-Registered cfg ctx.host ctx.row)
        λ payload. record { at = λ env w prints. ground arith }

pub ready_instance-Registered : (cfg : Config) (id : String) → Registered (ready_instance cfg id)
unfolding ready_instance
ready_instance-Registered cfg id =
    bind-Registered (instance_context id) _ (context-Registered id) λ ctx.
      bind-Registered
        (Client.run cfg (instance_args "ready" ctx.host ctx.row (address_args cfg ctx.row))) _
        (run-Registered cfg _) λ x. record { at = λ env w prints. ground arith }

texts-Registered : (vs : List Json) → Registered (texts vs)
unfolding texts
texts-Registered [] = record { at = λ env w prints. refl }
texts-Registered (v ∷ vs) = record {
  at = λ env w prints. ground (arith, (texts-Registered vs).at env w prints);
}

pub logs_instance-Registered :
    (cfg : Config) (id : String) (tail : ℕ) → Registered (logs_instance cfg id tail)
unfolding logs_instance
logs_instance-Registered cfg id tail =
    bind-Registered (instance_context id) _ (context-Registered id) λ ctx.
      bind-Registered
        (Client.run cfg (instance_args "logs" ctx.host ctx.row ("--tail" ∷ show_ℕ tail ∷ []))) _
        (run-Registered cfg _)
        λ x.
          bind-Registered (get_str x.0 "log_path" "") _ (record { at = λ env w prints. refl })
            λ path.
              bind-Registered (list_of (get (fields x.0) "lines")) _
                (record { at = λ env w prints. ground arith })
                λ values. bind-Registered (texts values) _ (texts-Registered values) λ lines.
                  pure-Registered {A = InstanceLogsResponse}
                    (record { instance_id = ctx.row.id; log_path = path; lines = lines })
