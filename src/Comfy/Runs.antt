-- ===== src/Comfy/Runs.antt =====
-- The record of a command's run, of app/services/comfy_service.py.
pub mod Closing
use comfy_shell_v.Prelude.{
  ℕ, ℤ, pos, String, Bool, true, false, Option, none, some, List, [], ◌∷◌, if◌then◌else◌, ⊤,
}
use comfy_shell_v.Prelude.Text.{last_chars}
use comfy_shell_v.Prelude.Dict.{get}
use comfy_shell_v.Prelude.Json.{Fields, end, field, fields, str, Json, truthy, lookup, py_str}
use comfy_shell_v.Db.{CommandRun, CommandKind, Phase, completed, failed}
use comfy_shell_v.Uow.{
  CommandResult, Action, pure, raise, or_raise, asks, commit, with_uow, on_app_error, ◌>>=◌, ◌>>◌,
}
use comfy_shell_v.Comfy.Config.{Config}
use comfy_shell_v.Comfy.Client
use comfy_shell_v.Comfy.Client.{get_str}
use comfy_shell_v.Comfy.Repository.Runs.{Ending}
use comfy_shell_v.Comfy.Repository.Runs
use comfy_shell_v.Comfy.Hosts.{map_action}
use comfy_shell_v.Comfy.Responses.{RunResponse, run_to_response}

-- `_record_run`
unfoldable pub record_run : String → Option String → CommandKind → Action String
unfolding Runs.create
record_run host_id instance_id kind = with_uow do
  request_id ← asks (λ env. env.request_id)
  run ← Runs.create request_id host_id instance_id kind
  commit
  pure run.id

-- `str(payload.get(key, "")) if payload.get(key) else None`
abbrev pub text_or_none : (Json → String) → Fields → String → Option String
text_or_none repr payload key =
    let v = lookup payload key in if truthy v then some (py_str repr v) else none

abbrev or_code : Option Json → Json
or_code none = str "COMFYCTL_FAILED"
or_code (some v) = v

-- What `_finish_run` writes of an answer
abbrev pub ending_of : (Json → String) → Fields → CommandResult → Ending
ending_of repr payload result =
    let ok = truthy (lookup payload "ok") in
    record {
      phase = if ok then completed else failed;
      exit_code = result.exit_code;
      error_code =
          if ok then none else some (py_str repr (or_code (get (fields payload) "error_code")));
      message = text_or_none repr payload "message";
      log_path = text_or_none repr payload "log_path";
      stderr_tail =
          if truthy (lookup payload "stderr_tail")
          then some (py_str repr (lookup payload "stderr_tail"))
          else some (last_chars 4000 result.stderr);
    }

unfoldable pub finish_run : String → Fields → CommandResult → Action ⊤
unfolding Runs.finish
finish_run run_id payload result =
    with_uow
      do ending ← asks (λ env. ending_of env.repr payload result); Runs.finish run_id ending; commit

abbrev or_empty : Option Json → Json
or_empty none = str ""
or_empty (some v) = v

-- `str(exc.details.get("stderr_tail", "")) if exc.details else None`
abbrev pub details_tail : (Json → String) → Fields → Option String
details_tail repr end = none
details_tail repr (field k v rest) =
    some (py_str repr (or_empty (get (fields (field k v rest)) "stderr_tail")))

abbrev pub failed_ending : (Json → String) → String → Fields → Ending
failed_ending repr code details = record {
  phase = failed;
  exit_code = pos 1;
  error_code = some code;
  message = some code;
  log_path = none;
  stderr_tail = details_tail repr details;
}

-- `except AppError as exc:` of `_run_recorded`
unfoldable pub fail_run {ℓ} : {A : Type ℓ} → String → String → Fields → Action A
unfolding Runs.finish
fail_run run_id code details = do
  with_uow do
    ending ← asks (λ env. failed_ending env.repr code details)
    Runs.finish run_id ending
    commit
  raise code details

unfoldable pub run_recorded : Config → String → List String → Action (Fields × CommandResult)
unfolding Client.run fail_run finish_run
run_recorded cfg run_id args = do
  (payload, result) ← on_app_error (Client.run cfg args) (fail_run run_id)
  finish_run run_id payload result
  pure (payload, result)

unfoldable pub get_run : String → Action RunResponse
unfolding Runs.get
get_run run_id = with_uow do
  found ← Runs.get run_id
  run ← or_raise found "RUN_NOT_FOUND" (field "run_id" (str run_id) end)
  run_to_response run

unfoldable pub list_runs : Option String → Action (List RunResponse)
unfolding Runs.list
list_runs instance_id = with_uow do runs ← Runs.list instance_id; map_action run_to_response runs
