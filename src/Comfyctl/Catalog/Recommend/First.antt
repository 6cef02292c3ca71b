-- ===== src/Comfyctl/Catalog/Recommend/First.antt =====
-- Which rule `recommendation` of comfyctl/catalog.py answers with.
use comfy_shell_v.Prelude.{
  String, true, false, ◌≡◌, refl, arith, Option, some, List, [], ◌∷◌, ◌++◌, ◌⊎◌, inl, inr,
  Bool-cases, All,
}
use comfy_shell_v.Comfyctl.Catalog.{
  Catalog, Rule, VersionEntry, RuntimeProfile, version_by_id, runtime_profile_by_id,
}
use comfy_shell_v.Comfyctl.Catalog.Recommend.{
  Gpu, Outcome, recommended, value_error, recommendation, applies, answer, from_rules, build,
}

-- The version and the profile that a rule names are in the catalog, as `_validate_catalog` demands.
abbrev pub Known : Catalog → Rule → Type 0
Known c rule =
    ((v : VersionEntry) × (version_by_id c rule.version_id ≡ some v))
    × ((p : RuntimeProfile) × (runtime_profile_by_id c rule.runtime_profile_id ≡ some p))

-- The rule is the first of the list that applies, and the outcome is made of it.
pub record FirstRule (c : Catalog) (cuda_version : Option String) (gpus : List Gpu)
    (rules : List Rule) (outcome : Outcome) : Type 0 where
  pub earlier : List Rule
  pub rule : Rule
  pub later : List Rule
  pub version : VersionEntry
  pub profile : RuntimeProfile
  pub split : rules ≡ earlier ++ rule ∷ later
  pub passed_over : All (λ r. applies cuda_version gpus r ≡ false) earlier
  pub fits : applies cuda_version gpus rule ≡ true
  pub named_version : version_by_id c rule.version_id ≡ some version
  pub named_profile : runtime_profile_by_id c rule.runtime_profile_id ≡ some profile
  pub is_answer : outcome ≡ recommended (answer rule gpus version profile)

from_rules-FirstRule :
    (c : Catalog) (cuda_version : Option String) (gpus : List Gpu) (rules : List Rule)
    → All (Known c) rules
    → FirstRule c cuda_version gpus rules (from_rules c cuda_version gpus rules)
      ⊎ (All (λ r. applies cuda_version gpus r ≡ false) rules
          × (from_rules c cuda_version gpus rules ≡ value_error))
unfolding from_rules build
from_rules-FirstRule c cuda_version gpus [] known = inr (tt, refl)
from_rules-FirstRule c cuda_version gpus (rule ∷ rules) (((v, ev), (p, ep)), known) =
    elim (Bool-cases (applies cuda_version gpus rule)) [
      | inl fits ↦ inl (record {
        earlier = [];
        rule = rule;
        later = rules;
        version = v;
        profile = p;
        split = refl;
        passed_over = tt;
        fits = fits;
        named_version = ev;
        named_profile = ep;
        is_answer = ground (arith, fits, ev, ep);
      })
      | inr misses ↦ elim (from_rules-FirstRule c cuda_version gpus rules known) [
        | inr (all, none_fits) ↦ inr ((misses, all), ground (arith, misses, none_fits))
        | inl first ↦ inl (record {
          earlier = rule ∷ first.earlier;
          rule = first.rule;
          later = first.later;
          version = first.version;
          profile = first.profile;
          split = ground (arith, first.split);
          passed_over = (misses, first.passed_over);
          fits = first.fits;
          named_version = first.named_version;
          named_profile = first.named_profile;
          is_answer = ground (arith, misses, first.is_answer);
        })
      ]
    ]

-- Where every rule names a version and a profile of the catalog, the recommendation is that of the
-- first rule that applies, and the ValueError of no rule is raised just when none applies.
pub recommendation-FirstRule :
    (c : Catalog) (cuda_version : Option String) (gpus : List Gpu)
    → All (Known c) c.rules
    → FirstRule c cuda_version gpus c.rules (recommendation c cuda_version gpus)
      ⊎ (All (λ r. applies cuda_version gpus r ≡ false) c.rules
          × (recommendation c cuda_version gpus ≡ value_error))
unfolding recommendation
recommendation-FirstRule c cuda_version gpus known =
    from_rules-FirstRule c cuda_version gpus c.rules known
