-- ===== src/Comfy/Coherent/Launch.antt =====
-- The guarantee for `update_instance_launch_config` of app/services/comfy_service.py, which has three
-- transactions.
use comfy_shell_v.Prelude.{String, Option, List, ◌≡◌, arith}
use comfy_shell_v.Uow.{Env, World}
use comfy_shell_v.Uow.Rules.{found}
use comfy_shell_v.Comfy.Config.{Config}
use comfy_shell_v.Comfy.Instances.{Context, instance_context, require_stopped, check_primary}
use comfy_shell_v.Comfy.Launch.{
  LaunchConfigUpdate, update_instance_launch_config, apply_launch_config, write_launch_config,
  sent_or, final_primary, check_update,
}
use comfy_shell_v.Comfy.Coherent.{Placed, Guarantee, Guarantee-trans, Rely}
use comfy_shell_v.Comfy.Coherent.Readers.{check_primary-world, check_primary-PrimaryIn}
use comfy_shell_v.Comfy.Coherent.Methods.{Keeps, Guarantee-bind, Keeps-bind, still-Keeps}
use comfy_shell_v.Comfy.Coherent.Transactions.{
  eq-Guarantee, instance_context-committed, instance_context-Placed, write_launch_config-Guarantee,
}
use comfy_shell_v.Comfy.Coherent.Steps.{
  context-Keeps, get_instance-Keeps, require_stopped-committed,
}

module _ (cfg : Config) (req : LaunchConfigUpdate) (ctx : Context) (env : Env)
    (rely : Rely env) where
  abbrev ids : List String
  ids = sent_or req.model_root_ids ctx.model_root_ids

  abbrev primary : Option String
  primary = final_primary req.primary_model_root_id ctx.row.primary_model_root_id ids

  apply-Guarantee :
      (w : World)
      → Placed w.committed ctx.row.id ctx.host.id
      → Guarantee w.committed (apply_launch_config cfg req ctx env w).1.committed
  unfolding apply_launch_config
  apply-Guarantee w here =
      let (_, w₁) = require_stopped cfg ctx.host ctx.row env w in
      let still : w₁.committed ≡ w.committed =
        require_stopped-committed cfg ctx.host ctx.row env w in
      let (_, w₂) = check_primary primary ids env w₁ in
      let same : w₂ ≡ w₁ = check_primary-world primary ids env w₁ in
      Guarantee-bind (require_stopped cfg ctx.host ctx.row) _ env w
        (eq-Guarantee w.committed w₁.committed still)
        λ u _.
          Guarantee-bind (check_primary primary ids) _ env w₁
            (eq-Guarantee w₁.committed w₂.committed (rw same))
            λ v checked.
              Guarantee-bind (write_launch_config ctx.host ctx.row req ids primary) _ env w₂
                (Guarantee-trans w₂.committed (found env w₂) _ (rely.others w₂.tick w₂.committed) (
                  write_launch_config-Guarantee ctx.host ctx.row req ids primary env w₂
                    ((rely.others w₂.tick w₂.committed).placed ctx.row.id ctx.host.id
                      (rw (same, still) here))
                    (check_primary-PrimaryIn primary ids env w₁ checked)))
                λ x _.
                  (get_instance-Keeps cfg ctx.row.id).at env
                    (write_launch_config ctx.host ctx.row req ids primary env w₂).1 rely

pub update_instance_launch_config-Keeps :
    (cfg : Config) (id : String) (req : LaunchConfigUpdate)
    → Keeps (update_instance_launch_config cfg id req)
unfolding update_instance_launch_config
update_instance_launch_config-Keeps cfg id req =
    Keeps-bind (check_update req) _ (still-Keeps _ (λ env w. ground arith)) λ u. record {
      at = λ env w rely.
          let (_, w') = instance_context id env w in
          Guarantee-bind (instance_context id) _ env w ((context-Keeps id).at env w rely)
            λ ctx done. apply-Guarantee cfg req ctx env rely w' (
              rw (instance_context-committed id env w) (instance_context-Placed id env w ctx done));
    }
