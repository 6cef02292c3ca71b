-- ===== src/Comfy/Client.antt =====
-- `ComfyCtlClient` of app/services/comfy_service.py: a run of the command line, and its answer.
use comfy_shell_v.Prelude.{String, Option, none, some, List, ◌∷◌, ◌==◌, if◌then◌else◌}
use comfy_shell_v.Prelude.Json.{Json, str, array, object, Fields, end, field, fields, nil, py_str}
use comfy_shell_v.Prelude.Dict.{get}
use comfy_shell_v.Prelude.Text.{is_blank, last_chars}
use comfy_shell_v.Uow.{CommandResult, Action, pure, raise, raise_crash, ask, asks, ◌>>=◌}
use comfy_shell_v.Comfy.Config.{Config}

abbrev process_details : Fields → Fields
process_details rest = field "layer" (str "process") rest

-- The last two tests of `_parse_json`, on what `json.loads` gave
pub parsed : CommandResult → Option Json → Action Fields
unfolding last_chars
parsed result (some (object payload)) = pure payload
parsed result none = raise "COMFYCTL_FAILED" (
    process_details (
      field "stdout_tail" (str (last_chars 4000 result.stdout))
        (field "stderr_tail" (str (last_chars 4000 result.stderr)) end)))
parsed result (some _) =
    raise "COMFYCTL_FAILED"
      (process_details (field "stdout_tail" (str (last_chars 4000 result.stdout)) end))

unfoldable pub parse_json : CommandResult → Action Fields
unfolding parsed is_blank last_chars
parse_json result env w =
    if is_blank result.stdout
    then raise "COMFYCTL_FAILED"
        (process_details (field "stderr_tail" (str (last_chars 4000 result.stderr)) end)) env w
    else parsed result (env.loads result.stdout) env w

-- `self._executor.run`, where an exception of the operating system is a crash
abbrev executed : Option CommandResult → Action CommandResult
executed none = raise_crash
executed (some result) = pure result

unfoldable pub run : Config → List String → Action (Fields × CommandResult)
unfolding parse_json
run cfg args = do
  outcome ← ask (λ env t. env.exec t (cfg.executable ∷ "-m" ∷ "comfyctl.cli" ∷ args))
  result ← executed outcome
  payload ← parse_json result
  pure (payload, result)

abbrev pub or_text : Option Json → String → Json
or_text none default = str default
or_text (some v) default = v

-- `str(payload.get(key, default))`
abbrev pub get_str : Fields → String → String → Action String
get_str payload key default =
    asks (λ env. py_str env.repr (or_text (get (fields payload) key) default))

-- `dict(payload.get("data", {}))`, which raises where the value is no dict
abbrev dict_of : Option Json → Action Fields
dict_of none = pure end
dict_of (some (object fs)) = pure fs
dict_of (some (array nil)) = pure end
dict_of (some (str s)) = if s == "" then pure end else raise_crash
dict_of (some _) = raise_crash

abbrev pub get_data : Fields → Action Fields
get_data payload = dict_of (get (fields payload) "data")
