-- ===== src/Comfyctl/Catalog/Version/Order.antt =====
-- `version_at_least` of comfyctl/catalog.py as an order of lists of numbers.
use comfy_shell_v.Prelude.{
  ℕ, suc, ◌-◌, String, Bool, true, not, ◌≡◌, refl, arith, ◌&&◌, Option, some, List, [], ◌∷◌, ◌++◌,
  ltb, eqb, length, if◌then◌else◌,
}
use Prim.Native.Nat.{max}
use mathlib.Core.List.{append-nil}
use comfy_shell_v.Comfyctl.Catalog.Version.{
  version_parts, parts_at_least, version_at_least, tuple_ge, zeros, is_empty,
}

-- The comparison number by number, where a number that is missing counts as 0.
abbrev pub ge_padded : List ℕ → List ℕ → Bool
ge_padded [] [] = true
ge_padded [] (y ∷ ys) = eqb y 0 && ge_padded [] ys
ge_padded (x ∷ xs) [] = true
ge_padded (x ∷ xs) (y ∷ ys) = if eqb x y then ge_padded xs ys else ltb y x

tuple_ge-zeros : (xs : List ℕ) → tuple_ge xs (zeros (length xs)) ≡ true
unfolding tuple_ge
tuple_ge-zeros [] = refl
tuple_ge-zeros (x ∷ xs) = ground (arith, tuple_ge-zeros xs)

zeros-tuple_ge : (ys : List ℕ) → tuple_ge (zeros (length ys)) ys ≡ ge_padded [] ys
unfolding tuple_ge
zeros-tuple_ge [] = refl
zeros-tuple_ge (y ∷ ys) = ground (arith, zeros-tuple_ge ys)

-- The padding that the code writes out
abbrev padded_ge : List ℕ → List ℕ → Bool
padded_ge xs ys =
    let n = max (length xs) (length ys) in
    tuple_ge (xs ++ zeros (n - length xs)) (ys ++ zeros (n - length ys))

max-suc : (a b : ℕ) → max (suc a) (suc b) - suc a ≡ max a b - a
max-suc a b = omega arith

max-suc_right : (a b : ℕ) → max (suc a) (suc b) - suc b ≡ max a b - b
max-suc_right a b = omega arith

max_zero : (a : ℕ) → max 0 a - a ≡ 0
max_zero a = omega arith

max_zero_left : (a : ℕ) → max 0 a - 0 ≡ a
max_zero_left a = omega arith

max_zero_right : (a : ℕ) → max a 0 - a ≡ 0
max_zero_right a = omega arith

max_zero_all : (a : ℕ) → max a 0 - 0 ≡ a
max_zero_all a = omega arith

padded_ge-cons :
    (x y : ℕ) (xs ys : List ℕ)
    → padded_ge (x ∷ xs) (y ∷ ys) ≡ (if eqb x y then padded_ge xs ys else ltb y x)
unfolding tuple_ge
padded_ge-cons x y xs ys =
    rw (max-suc (length xs) (length ys), max-suc_right (length xs) (length ys)) refl

padded_ge-empty : (ys : List ℕ) → padded_ge [] ys ≡ ge_padded [] ys
padded_ge-empty ys =
    rw (max_zero (length ys), max_zero_left (length ys), append-nil ys) (zeros-tuple_ge ys)

padded_ge-full : (xs : List ℕ) → padded_ge xs [] ≡ true
padded_ge-full xs =
    rw (max_zero_right (length xs), max_zero_all (length xs), append-nil xs) (tuple_ge-zeros xs)

padded_ge-ge_padded : (xs ys : List ℕ) → padded_ge xs ys ≡ ge_padded xs ys
padded_ge-ge_padded [] [] = padded_ge-full []
padded_ge-ge_padded [] (y ∷ ys) = padded_ge-empty (y ∷ ys)
padded_ge-ge_padded (x ∷ xs) [] = padded_ge-full (x ∷ xs)
padded_ge-ge_padded (x ∷ xs) (y ∷ ys) =
    ground (arith, padded_ge-cons x y xs ys, padded_ge-ge_padded xs ys)

-- A version is at least a minimum just when both have a number and the numbers of the version are
-- at least those of the minimum, one by one from the left, a missing one counting as 0.
pub version_at_least-ge_padded :
    (value : Option String) (minimum : String)
    → let xs = version_parts value in
      let ys = version_parts (some minimum) in
      version_at_least value minimum ≡ not (is_empty xs) && not (is_empty ys) && ge_padded xs ys
unfolding version_at_least parts_at_least
version_at_least-ge_padded value minimum =
    let xs = version_parts value in
    let ys = version_parts (some minimum) in ground (arith, padded_ge-ge_padded xs ys)
