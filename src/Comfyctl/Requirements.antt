-- ===== src/Comfyctl/Requirements.antt =====
-- The part of comfyctl/cli.py on requirement files: which lines ask for torch, and what is passed to
-- the installer.
pub mod Lines
use Prim.Native.Char.{code}
use Prim.Native.String
use Prim.Native.String.{char_at}
use comfy_shell_v.Prelude.{
  ℕ, ◌-◌, String, Bool, true, false, not, ◌&&◌, ◌||◌, Option, none, some, List, [], ◌∷◌, ◌++◌, map,
  ◌==◌, elem, filterb, leb, eqb, if◌then◌else◌,
}
use comfy_shell_v.Prelude.Dict.{Dict, get}
use comfy_shell_v.Prelude.Lines.{strip, before_char, split_lines, join, newline}
use comfy_shell_v.Comfyctl.Catalog.{Catalog, torch_profile_packages}
use text.Mathlib.Text.{starts_with}

-- `[-_.]`
abbrev is_separator : ℕ → Bool
is_separator c = eqb c 45 || eqb c 95 || eqb c 46

abbrev starts_with_separator : String → Bool
starts_with_separator String.[] = false
starts_with_separator (String.◌∷◌ c s) = is_separator (code c)

-- `re.sub(r"[-_.]+", "-", value)`: of a run of separators the last is kept, as a dash.
collapsed : String → String
collapsed String.[] = ""
collapsed (String.◌∷◌ c s) =
    let rest = collapsed s in
    if is_separator (code c)
    then (if starts_with_separator s then rest else String.◌∷◌ "-" rest)
    else String.◌∷◌ c rest

abbrev is_upper : ℕ → Bool
is_upper c = leb 65 c && leb c 90

abbrev alphabet : String
alphabet = "abcdefghijklmnopqrstuvwxyz"

-- `s.lower()` of a text of ASCII characters
lower : String → String
lower String.[] = ""
lower (String.◌∷◌ c s) =
    String.◌∷◌ (if is_upper (code c) then char_at alphabet (code c - 65) else c) (lower s)

unfoldable pub normalized_package_name : String → String
unfolding collapsed lower
normalized_package_name value = lower (collapsed value)

abbrev is_name_char : ℕ → Bool
is_name_char c = leb 48 c && leb c 57 || is_upper c || leb 97 c && leb c 122 || is_separator c

-- What `[A-Za-z0-9_.-]+` matches at the start, empty where it does not match
name_prefix : String → String
name_prefix String.[] = ""
name_prefix (String.◌∷◌ c s) =
    let rest = name_prefix s in if is_name_char (code c) then String.◌∷◌ c rest else ""

-- The line without its comment and the space around it
unfoldable pub requirement_text : String → String
unfolding before_char strip
requirement_text line = strip (before_char 35 line)

-- The line is empty, an option, a URL or a local directory.
abbrev is_unnamed : String → Bool
is_unnamed stripped =
    stripped == ""
    || starts_with stripped "-"
    || starts_with stripped "http://"
    || starts_with stripped "https://"
    || starts_with stripped "."

unfoldable pub requirement_package_name : String → Option String
unfolding requirement_text name_prefix normalized_package_name
requirement_package_name line =
    let stripped = requirement_text line in
    let matched = name_prefix stripped in
    if is_unnamed stripped || matched == "" then none else some (normalized_package_name matched)

abbrev pub torch_requirement_names : List String
torch_requirement_names = "torch" ∷ "torchvision" ∷ "torchaudio" ∷ []

abbrev is_torch_name : Option String → Bool
is_torch_name none = false
is_torch_name (some name) = elem name torch_requirement_names

unfoldable pub is_torch_requirement : String → Bool
unfolding requirement_package_name
is_torch_requirement line = is_torch_name (requirement_package_name line)

-- What `write_requirements_without_torch` writes, for the text that it reads
unfoldable pub requirements_without_torch : String → String
unfolding is_torch_requirement split_lines join
requirements_without_torch text =
    String.◌++◌
      (join newline (filterb (λ line. not (is_torch_requirement line)) (split_lines text))) newline

-- The requirements of the checkout's own file
unfoldable pub torch_lines : String → List String
unfolding requirement_text is_torch_requirement split_lines
torch_lines text =
    filterb (λ line. not (line == "") && is_torch_requirement line)
      (map requirement_text (split_lines text))

abbrev or_names : List String → List String
or_names [] = torch_requirement_names
or_names (line ∷ lines) = line ∷ lines

-- `[profile_packages[name] for name in names]`, where `none` is a KeyError
abbrev cons_option : Option String → Option (List String) → Option (List String)
cons_option (some s) (some ss) = some (s ∷ ss)
cons_option _ _ = none

abbrev packages_for : Dict String → List String → Option (List String)
packages_for packages [] = some []
packages_for packages (name ∷ names) = cons_option (get packages name) (packages_for packages names)

abbrev packages_of : Option (Dict String) → Option (List String)
packages_of none = none
packages_of (some packages) = packages_for packages torch_requirement_names

-- `torch_requirements` for the text of the file, where `none` is a KeyError
unfoldable pub torch_requirements : Catalog → String → Option String → Option (List String)
unfolding torch_lines torch_profile_packages
torch_requirements catalog text none = some (or_names (torch_lines text))
torch_requirements catalog text (some profile) =
    packages_of (torch_profile_packages catalog profile)

-- The arguments are texts, empty where they are not given.
unfoldable pub index_url_args : String → List String
index_url_args index_url = if index_url == "" then [] else "--index-url" ∷ index_url ∷ []

unfoldable pub package_source_args : String → String → List String
unfolding index_url_args
package_source_args index_url find_links_url =
    index_url_args index_url
    ++ (if find_links_url == "" then [] else "--find-links" ∷ find_links_url ∷ [])
