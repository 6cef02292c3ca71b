-- ===== src/Comfy/Coherent/Additions.antt =====
-- The methods of app/services/comfy_service.py that add a host or a model root.
use comfy_shell_v.Prelude.{inl, inr}
use comfy_shell_v.Uow.Rules.{found}
use comfy_shell_v.Comfy.Config.{Config}
use comfy_shell_v.Comfy.Hosts.{
  ensure_default_host, create_host, create_model_root, HostCreateRequest, ModelRootCreateRequest,
}
use comfy_shell_v.Comfy.Coherent.{Guarantee-trans}
use comfy_shell_v.Comfy.Coherent.Methods.{Keeps, Keeps-transaction}
use comfy_shell_v.Comfy.Coherent.Transactions.{
  same-Guarantee, eq-Guarantee, create_host-SameRows, create_model_root-AddsRoot,
  ensure_default_host-AddsRoot, Guarantee-AddsRoot,
}

pub create_host-Keeps : (cfg : Config) (req : HostCreateRequest) → Keeps (create_host cfg req)
create_host-Keeps cfg req = record {
  at = λ env w rely. elim (create_host-SameRows cfg req env w) [
    | inl same ↦
        Guarantee-trans w.committed (found env w) _ (rely.others w.tick w.committed)
          (same-Guarantee (found env w) (create_host cfg req env w).1.committed same)
    | inr still ↦ eq-Guarantee w.committed _ still
  ];
}

pub create_model_root-Keeps : (req : ModelRootCreateRequest) → Keeps (create_model_root req)
create_model_root-Keeps req =
    Keeps-transaction _
      (λ env w. Guarantee-AddsRoot (found env w) _ _ (create_model_root-AddsRoot req env w))

pub ensure_default_host-Keeps : (cfg : Config) → Keeps (ensure_default_host cfg)
ensure_default_host-Keeps cfg = Keeps-transaction _ (λ env w.
    let (r, adds) = ensure_default_host-AddsRoot cfg env w in
    Guarantee-AddsRoot (found env w) _ r adds)
