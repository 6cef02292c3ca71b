-- ===== src/Errors/Service/Commands.antt =====
-- The codes of what runs the command line and parses its answer.
use comfy_shell_v.Prelude.{String, true, ◌≡◌, arith, List, ◌∷◌, Option-cases, inl, inr}
use comfy_shell_v.Prelude.Json.{Fields, object}
use comfy_shell_v.Db.{Host, Instance}
use comfy_shell_v.Uow.{Env, World, CommandResult, ok}
use comfy_shell_v.Comfy.Config.{Config}
use comfy_shell_v.Comfy.Client
use comfy_shell_v.Comfy.Client.{get_data, get_str, parse_json, parsed}
use comfy_shell_v.Comfy.Instances.{status_payload, require_stopped, instance_args, address_args}
use comfy_shell_v.Errors.Codes.{is_registered, service_codes}
use comfy_shell_v.Errors.Service.{
  Registered, PrintsRegistered, code_of, bind-code_ok, bind-Registered,
}

pub run-Registered : (cfg : Config) (args : List String) → Registered (Client.run cfg args)
unfolding Client.run
run-Registered cfg args = record { at = λ env w prints. ground (arith, service_codes) }

-- A payload that the client returns has a registered code.
pub run-code_of :
    (cfg : Config) (args : List String) (env : Env) (w : World) (payload : Fields)
    (result : CommandResult)
    → PrintsRegistered env
    → (Client.run cfg args env w).0 ≡ ok (payload, result)
    → is_registered (code_of env.repr payload) ≡ true
unfolding Client.run
run-code_of cfg args env w payload result prints h =
    let all = cfg.executable ∷ "-m" ∷ "comfyctl.cli" ∷ args in
    elim (Option-cases (env.exec w.tick all)) [
      | inl nothing ↦ absurd (ground arith)
      | inr (result', ran) ↦ elim (Option-cases (env.loads result'.stdout)) [
        | inl unread ↦ absurd (ground arith)
        | inr (object fs, read) ↦
            let same : fs ≡ payload = ground arith in
            ground (arith, same, prints.printed w.tick all result' fs ran read)
        | inr (_, read) ↦ absurd (ground arith)
      ]
    ]

pub get_data-Registered : (payload : Fields) → Registered (get_data payload)
get_data-Registered payload = record { at = λ env w prints. ground arith }

pub status_payload-Registered :
    (cfg : Config) (host : Host) (row : Instance) → Registered (status_payload cfg host row)
unfolding status_payload
status_payload-Registered cfg host row = record {
  at = λ env w prints.
      let args = instance_args "status" host row (address_args cfg row) in
      bind-code_ok (Client.run cfg args) _ env w ((run-Registered cfg args).at env w prints)
        (λ x e. ground (arith, run-code_of cfg args env w x.0 x.1 prints e));
}

pub require_stopped-Registered :
    (cfg : Config) (host : Host) (row : Instance) → Registered (require_stopped cfg host row)
unfolding require_stopped
require_stopped-Registered cfg host row =
    bind-Registered (status_payload cfg host row) _ (status_payload-Registered cfg host row)
      λ payload.
        bind-Registered (get_data payload) _ (get_data-Registered payload)
          λ content. record { at = λ env w prints. ground (arith, service_codes) }
