-- ===== src/Comfyctl/Catalog/Version.antt =====
-- `version_parts` and `version_at_least` of comfyctl/catalog.py.
pub mod Order
use Prim.Native.Char.{code}
use comfy_shell_v.Prelude.{
  ℕ, zero, suc, ◌+◌, ◌-◌, ◌*◌, String, Bool, true, false, ◌&&◌, ◌||◌, Option, none, some, List, [],
  ◌∷◌, ◌++◌, ltb, leb, eqb, length, if◌then◌else◌,
}
use Prim.Native.Nat.{max}

is_digit : ℕ → Bool
is_digit c = leb 48 c && leb c 57

abbrev closed : Option ℕ → List ℕ → List ℕ
closed none rest = rest
closed (some n) rest = n ∷ rest

abbrev extended : Option ℕ → ℕ → Option ℕ
extended none c = some (c - 48)
extended (some n) c = some (n * 10 + (c - 48))

-- `re.findall(r"\d+", value)`: the open run of digits, as a number, and the text still to read
parts_from : Option ℕ → String → List ℕ
parts_from run String.[] = closed run []
parts_from run (String.◌∷◌ c s) =
    let inside = parts_from (extended run (code c)) s in
    let outside = parts_from none s in if is_digit (code c) then inside else closed run outside

unfoldable pub version_parts : Option String → List ℕ
unfolding parts_from is_digit
version_parts none = []
version_parts (some value) = parts_from none value

-- `parts + (0,) * missing`
abbrev pub zeros : ℕ → List ℕ
zeros zero = []
zeros (suc n) = 0 ∷ zeros n

-- `>=` of two tuples of numbers
unfoldable pub tuple_ge : List ℕ → List ℕ → Bool
tuple_ge xs [] = true
tuple_ge [] (y ∷ ys) = false
tuple_ge (x ∷ xs) (y ∷ ys) = if eqb x y then tuple_ge xs ys else ltb y x

abbrev pub is_empty : List ℕ → Bool
is_empty [] = true
is_empty (_ ∷ _) = false

unfoldable pub parts_at_least : List ℕ → List ℕ → Bool
unfolding tuple_ge
parts_at_least parts minimum =
    let n = max (length parts) (length minimum) in
    if is_empty parts || is_empty minimum
    then false
    else tuple_ge (parts ++ zeros (n - length parts)) (minimum ++ zeros (n - length minimum))

unfoldable pub version_at_least : Option String → String → Bool
unfolding version_parts parts_at_least
version_at_least value minimum = parts_at_least (version_parts value) (version_parts (some minimum))
