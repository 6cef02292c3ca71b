-- ===== src/Comfy/Launch.antt =====
-- `update_instance_launch_config` of app/services/comfy_service.py, which changes how an instance is
-- started.
use comfy_shell_v.Prelude.{
  ℕ, String, Bool, true, false, ◌&&◌, Option, none, some, List, elem, if◌then◌else◌, ⊤,
}
use comfy_shell_v.Prelude.Json.{end, field, str}
use comfy_shell_v.Db.{Host, Instance}
use comfy_shell_v.Uow.{Action, raise_if, or_raise, commit, with_uow, ◌>>=◌, ◌>>◌}
use comfy_shell_v.Comfy.Config.{Config}
use comfy_shell_v.Comfy.Repository
use comfy_shell_v.Comfy.Repository.{NewInstance}
use comfy_shell_v.Comfy.Responses.{InstanceResponse}
use comfy_shell_v.Comfy.Instances.{
  check_roots, check_primary, head?, Context, instance_context, get_instance, require_stopped,
}

-- A field of a request with `model_fields_set`: not sent, sent as null, or sent.
pub data Sent (A : Type 0) : Type 0 where
  unset : Sent A
  nulled : Sent A
  sent : A → Sent A

pub record LaunchConfigUpdate : Type 0 where
  pub comfy_port : Sent ℕ
  pub gpu_ids : Sent (List String)
  pub model_root_ids : Sent (List String)
  pub primary_model_root_id : Sent String

module _ {A : Type 0} where
  abbrev pub is_unset : Sent A → Bool
  is_unset unset = true
  is_unset _ = false

  abbrev pub is_null : Sent A → Bool
  is_null nulled = true
  is_null _ = false

  -- `data.x if data.x is not None else old`
  abbrev pub sent_or : Sent A → A → A
  sent_or (sent a) old = a
  sent_or unset old = old
  sent_or nulled old = old

abbrev no_null : Bool → String → Action ⊤
no_null is_null name =
    raise_if is_null "REQUEST_INVALID"
      (field "field" (str name) (field "message" (str "null is not allowed") end))

-- The two tests of the request alone
unfoldable pub check_update : LaunchConfigUpdate → Action ⊤
check_update req = do
  raise_if
      (is_unset req.comfy_port
        && is_unset req.gpu_ids
        && is_unset req.model_root_ids
        && is_unset req.primary_model_root_id)
      "REQUEST_INVALID" (field "message" (str "at least one launch config field is required") end)
  no_null (is_null req.comfy_port) "comfy_port"
  no_null (is_null req.gpu_ids) "gpu_ids"
  no_null (is_null req.model_root_ids) "model_root_ids"

-- The primary root of an instance whose roots may have changed
abbrev kept_primary : Option String → List String → Option String
kept_primary none ids = none
kept_primary (some p) ids = if elem p ids then some p else head? ids

abbrev pub final_primary : Sent String → Option String → List String → Option String
final_primary unset old ids = kept_primary old ids
final_primary nulled old ids = none
final_primary (sent p) old ids = some p

-- The transaction of `update_instance_launch_config`
unfoldable pub write_launch_config :
    Host → Instance → LaunchConfigUpdate → List String → Option String → Action ⊤
unfolding check_roots Repository.get_instance Repository.update_launch_config
    Repository.set_model_roots
write_launch_config host row req ids primary = with_uow do
  current ← Repository.get_instance row.id
  or_raise current "INSTANCE_NOT_FOUND" (field "instance_id" (str row.id) end)
  check_roots host.id ids
  Repository.update_launch_config row.id (sent_or req.comfy_port row.comfy_port)
      (sent_or req.gpu_ids row.gpu_ids) primary
  Repository.set_model_roots row.id ids
  commit

-- The part of `update_instance_launch_config` below the read of the instance
unfoldable pub apply_launch_config : Config → LaunchConfigUpdate → Context → Action InstanceResponse
unfolding get_instance
apply_launch_config cfg req ctx = do
  require_stopped cfg ctx.host ctx.row
  let ids : List String = sent_or req.model_root_ids ctx.model_root_ids
  let primary : Option String =
      final_primary req.primary_model_root_id ctx.row.primary_model_root_id ids
  check_primary primary ids
  write_launch_config ctx.host ctx.row req ids primary
  get_instance cfg ctx.row.id

unfoldable pub update_instance_launch_config :
    Config → String → LaunchConfigUpdate → Action InstanceResponse
unfolding check_update
update_instance_launch_config cfg instance_id req = do
  check_update req
  ctx ← instance_context instance_id
  apply_launch_config cfg req ctx
