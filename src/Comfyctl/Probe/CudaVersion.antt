-- ===== src/Comfyctl/Probe/CudaVersion.antt =====
-- `parse_nvidia_smi_cuda_version` of comfyctl/cli.py.
use Prim.Native.Char.{code}
use Prim.Native.String
use Prim.Native.String.{◌++◌ as ◌<>◌}
use comfy_shell_v.Prelude.{
  ℕ, zero, suc, String, Bool, not, ◌&&◌, Option, none, some, ◌==◌, leb, eqb, if◌then◌else◌,
}
use comfy_shell_v.Prelude.Text.{is_space}
use text.Mathlib.Text.{starts_with}

abbrev is_digit : ℕ → Bool
is_digit c = leb 48 c && leb c 57

-- The digits that the text begins with
digits_prefix : String → String
digits_prefix String.[] = ""
digits_prefix (String.◌∷◌ c s) =
    let rest = digits_prefix s in if is_digit (code c) then String.◌∷◌ c rest else ""

after_digits : String → String
after_digits String.[] = ""
after_digits (String.◌∷◌ c s) =
    let rest = after_digits s in if is_digit (code c) then rest else String.◌∷◌ c s

-- `(?:\.[0-9]+)?` at the start of the text
fraction : String → String
unfolding digits_prefix
fraction String.[] = ""
fraction (String.◌∷◌ c s) =
    if eqb (code c) 46 && not (digits_prefix s == "") then String.◌∷◌ c (digits_prefix s) else ""

-- `([0-9]+(?:\.[0-9]+)?)` at the start of the text
number_prefix : String → Option String
unfolding digits_prefix after_digits fraction
number_prefix s =
    if digits_prefix s == ""
    then none
    else some (String.◌++◌ (digits_prefix s) (fraction (after_digits s)))

-- `\s*([0-9]+(?:\.[0-9]+)?)` at the start of the text
after_spaces : String → Option String
unfolding number_prefix is_space
after_spaces String.[] = none
after_spaces (String.◌∷◌ c s) =
    let rest = after_spaces s in if is_space (code c) then rest else number_prefix (String.◌∷◌ c s)

-- The text behind `CUDA Version:` at the start of the text
abbrev drop_label : ℕ → String → String
drop_label zero s = s
drop_label (suc n) String.[] = ""
drop_label (suc n) (String.◌∷◌ c s) = drop_label n s

abbrev match_here : String → Option String
match_here s = if starts_with s "CUDA Version:" then after_spaces (drop_label 13 s) else none

abbrev or_later : Option String → Option String → Option String
or_later none later = later
or_later (some version) later = some version

-- `re.search`, at the first place that matches
unfoldable pub parse_nvidia_smi_cuda_version : String → Option String
unfolding after_spaces
parse_nvidia_smi_cuda_version String.[] = none
parse_nvidia_smi_cuda_version (String.◌∷◌ c s) =
    or_later (match_here (String.◌∷◌ c s)) (parse_nvidia_smi_cuda_version s)
