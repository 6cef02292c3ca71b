-- ===== src/Comfyctl/Catalog/Recommend.antt =====
-- `recommendation` of comfyctl/catalog.py.
pub mod First
use comfy_shell_v.Prelude.{
  String, Bool, true, false, ◌&&◌, ◌||◌, Option, none, some, List, [], ◌∷◌, ◌==◌, if◌then◌else◌,
}
use comfy_shell_v.Comfyctl.Catalog.{
  Catalog, Rule, VersionEntry, RuntimeProfile, version_by_id, runtime_profile_by_id,
}
use comfy_shell_v.Comfyctl.Catalog.Version.{version_at_least}

pub record Gpu : Type 0 where
  pub index : String
  pub name : String
  pub memory_total_mb : String
  pub driver_version : String

pub record Recommendation : Type 0 where
  pub rule_id : String
  pub version_id : String
  pub version_label : String
  pub version_channel : String
  pub version_source_type : String
  pub runtime_profile_id : String
  pub runtime_profile_label : String
  pub comfy_ref : String
  pub python_version : String
  pub torch_profile : String
  pub gpu_ids : List String
  pub reason : String
  pub warnings : List String

-- `key_error` where a rule names an id that the catalog lacks, `value_error` where no rule fits
pub data Outcome : Type 0 where
  recommended : Recommendation → Outcome
  key_error value_error : Outcome

abbrev pub vendor : List Gpu → String
vendor [] = "none"
vendor (_ ∷ _) = "nvidia"

abbrev text_is : Option String → String → Bool
text_is none s = false
text_is (some t) s = t == s

-- `cuda_min and not version_at_least(cuda_version, cuda_min)`, negated
abbrev cuda_ok : Option String → Option String → Bool
cuda_ok cuda_version none = true
cuda_ok cuda_version (some cuda_min) = cuda_min == "" || version_at_least cuda_version cuda_min

-- The tests that a rule has to pass to be the answer
abbrev pub applies : Option String → List Gpu → Rule → Bool
applies cuda_version gpus rule =
    text_is rule.gpu_vendor (vendor gpus) && cuda_ok cuda_version rule.cuda_min

abbrev pub chosen_gpus : Rule → List Gpu → List String
chosen_gpus rule [] = []
chosen_gpus rule (g ∷ _) = if text_is rule.gpu "first" then g.index ∷ [] else []

abbrev pub answer : Rule → List Gpu → VersionEntry → RuntimeProfile → Recommendation
answer rule gpus version profile = record {
  rule_id = rule.id;
  version_id = version.id;
  version_label = version.label;
  version_channel = version.channel;
  version_source_type = version.source_type;
  runtime_profile_id = profile.id;
  runtime_profile_label = profile.label;
  comfy_ref = version.ref;
  python_version = profile.python_version;
  torch_profile = profile.torch_profile;
  gpu_ids = chosen_gpus rule gpus;
  reason = rule.reason;
  warnings = rule.warnings;
}

pub build : Rule → List Gpu → Option VersionEntry → Option RuntimeProfile → Outcome
build rule gpus (some v) (some p) = recommended (answer rule gpus v p)
build rule gpus _ _ = key_error

pub from_rules : Catalog → Option String → List Gpu → List Rule → Outcome
unfolding build
from_rules c cuda_version gpus [] = value_error
from_rules c cuda_version gpus (rule ∷ rules) =
    if applies cuda_version gpus rule
    then build rule gpus (version_by_id c rule.version_id)
        (runtime_profile_by_id c rule.runtime_profile_id)
    else from_rules c cuda_version gpus rules

unfoldable pub recommendation : Catalog → Option String → List Gpu → Outcome
unfolding from_rules
recommendation c cuda_version gpus = from_rules c cuda_version gpus c.rules
