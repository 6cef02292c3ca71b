-- ===== src/Comfyctl/Catalog.antt =====
-- comfyctl/catalog.py over a catalog that `_validate_catalog` has accepted, so that the keys it
-- asks for are fields here. Only the ASCII digits are read as digits.
pub mod Version
pub mod Recommend
pub mod Tests
use comfy_shell_v.Prelude.{
  String, Bool, Option, none, some, List, [], ◌∷◌, map, ◌==◌, find, if◌then◌else◌,
}
use comfy_shell_v.Prelude.Dict.{Dict}

pub record VersionEntry : Type 0 where
  pub id : String
  pub label : String
  pub channel : String
  pub source_type : String
  pub ref : String
  pub recommended : Bool
  pub advanced : Bool

pub record RuntimeProfile : Type 0 where
  pub id : String
  pub label : String
  pub python_version : String
  pub torch_profile : String
  pub backend : Option String
  pub recommended : Bool
  pub advanced : Bool
  pub packages : Dict String

pub record Rule : Type 0 where
  pub id : String
  pub gpu_vendor : Option String
  pub cuda_min : Option String
  pub version_id : String
  pub runtime_profile_id : String
  pub gpu : Option String
  pub reason : String
  pub warnings : List String

-- The two lists are not empty: their first entries are fields of their own.
pub record Catalog : Type 0 where
  pub first_version : VersionEntry
  pub later_versions : List VersionEntry
  pub first_profile : RuntimeProfile
  pub later_profiles : List RuntimeProfile
  pub rules : List Rule

abbrev pub versions : Catalog → List VersionEntry
versions c = c.first_version ∷ c.later_versions

abbrev pub runtime_profiles : Catalog → List RuntimeProfile
runtime_profiles c = c.first_profile ∷ c.later_profiles

-- `none` is the KeyError of these two.
unfoldable pub version_by_id : Catalog → String → Option VersionEntry
version_by_id c version_id = find (λ v. v.id == version_id) (versions c)

unfoldable pub runtime_profile_by_id : Catalog → String → Option RuntimeProfile
runtime_profile_by_id c profile_id = find (λ p. p.id == profile_id) (runtime_profiles c)

abbrev or_first {ℓ} : {A : Type ℓ} → Option A → A → A
or_first none first = first
or_first (some a) first = a

unfoldable pub default_version : Catalog → VersionEntry
default_version c = or_first (find (λ v. v.recommended) (versions c)) c.first_version

unfoldable pub default_runtime_profile : Catalog → RuntimeProfile
default_runtime_profile c =
    or_first (find (λ p. p.recommended) (runtime_profiles c)) c.first_profile

unfoldable pub supported_torch_profiles : Catalog → List String
supported_torch_profiles c = map (λ p. p.torch_profile) (runtime_profiles c)

abbrev torch_entry : Catalog → String → Option RuntimeProfile
torch_entry c name = find (λ p. p.torch_profile == name) (runtime_profiles c)

-- The backend that is installed from: None for the profile of the checkout's own requirements.
abbrev install_backend : Option String → Option String
install_backend none = none
install_backend (some backend) = if backend == "requirements" then none else some backend

-- `none` is the KeyError of these two, and `some none` the answer None.
unfoldable pub torch_profile_backend : Catalog → String → Option (Option String)
torch_profile_backend c name = elim (torch_entry c name) [
  | none ↦ none
  | some p ↦ some (install_backend p.backend)
]

unfoldable pub torch_profile_packages : Catalog → String → Option (Dict String)
torch_profile_packages c name = elim (torch_entry c name) [ none ↦ none | some p ↦ some p.packages ]
