-- ===== src/Prelude/Order.antt =====
-- The order of rows by a time and a text, and sorting by it.
pub mod Sorting
use Prim.Native.Nat.{ℕ}
use Prim.Native.String.{String}
use mathlib.Core.Bool.{Bool, ◌&&◌, ◌||◌}
use mathlib.Core.List.{List, [], ◌∷◌}
use comfy_shell_v.Prelude.Tests.{ltb, eqb, if◌then◌else◌}

-- ORDER BY created_at, id, ascending: the entry stands after those that come before it.
abbrev pub before : (String → String → Bool) → ℕ → String → ℕ → String → Bool
before text_before t id t' id' = ltb t t' || eqb t t' && text_before id id'

module _ {A : Type 0} (comes_before : A → A → Bool) where
  abbrev pub insert_sorted : A → List A → List A
  insert_sorted x [] = x ∷ []
  insert_sorted x (y ∷ ys) = if comes_before x y then x ∷ y ∷ ys else y ∷ insert_sorted x ys

  abbrev pub sorted_by : List A → List A
  sorted_by [] = []
  sorted_by (x ∷ xs) = insert_sorted x (sorted_by xs)
