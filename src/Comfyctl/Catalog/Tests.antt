-- ===== src/Comfyctl/Catalog/Tests.antt =====
-- Versions and recommendations at concrete inputs.
use comfy_shell_v.Prelude.{true, false, ◌≡◌, refl, ◌&&◌, not, some, none, [], ◌∷◌, All, ◌⊎◌}
use comfy_shell_v.Fixture.{catalog}
use comfy_shell_v.Comfyctl.Catalog.{Catalog, Rule, version_by_id, runtime_profile_by_id}
use comfy_shell_v.Comfyctl.Catalog.Version.{version_parts, version_at_least, is_empty}
use comfy_shell_v.Comfyctl.Catalog.Version.Order.{ge_padded, version_at_least-ge_padded}
use comfy_shell_v.Comfyctl.Catalog.Recommend.{recommendation, value_error, applies}
use comfy_shell_v.Comfyctl.Catalog.Recommend.First.{FirstRule, recommendation-FirstRule}

run_longer : version_at_least (some "12.8") "12.8.0" ≡ true
unfolding version_at_least
run_longer = refl

run_tenth : version_at_least (some "12.10") "12.8" ≡ true
unfolding version_at_least
run_tenth = refl

run_lower : version_at_least (some "12.4") "12.8" ≡ false
unfolding version_at_least
run_lower = refl

run_none : version_at_least none "12.8" ≡ false
unfolding version_at_least
run_none = refl

version_at_least-ge_padded_example :
    version_at_least (some "12.8") "12.8.0"
    ≡ not (is_empty (version_parts (some "12.8")))
      && not (is_empty (version_parts (some "12.8.0")))
      && ge_padded (version_parts (some "12.8")) (version_parts (some "12.8.0"))
version_at_least-ge_padded_example = version_at_least-ge_padded (some "12.8") "12.8.0"

abbrev gpu_rule : Rule
gpu_rule = record {
  id = "nvidia";
  gpu_vendor = some "nvidia";
  cuda_min = some "12.8";
  version_id = "v1";
  runtime_profile_id = "cpu";
  gpu = some "first";
  reason = "a card";
  warnings = [];
}

abbrev any_rule : Rule
any_rule = record gpu_rule { id = "none"; gpu_vendor = some "none"; cuda_min = none; gpu = none }

abbrev ruled : Catalog
ruled = record catalog { rules = gpu_rule ∷ any_rule ∷ [] }

recommendation-FirstRule_example :
    FirstRule ruled none [] ruled.rules (recommendation ruled none [])
    ⊎ (All (λ r. applies none [] r ≡ false) ruled.rules
        × (recommendation ruled none [] ≡ value_error))
unfolding version_by_id runtime_profile_by_id
recommendation-FirstRule_example =
    recommendation-FirstRule ruled none [] (((_, refl), (_, refl)), (((_, refl), (_, refl)), tt))
