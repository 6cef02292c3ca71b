-- ===== src/Items/Rank.antt =====
-- The order of a list of items, by time and id (app/repositories/item_repository.py).
use comfy_shell_v.Prelude.{
  String, Bool, true, false, ◌≡◌, arith, List, [], ◌∷◌, ◌⊎◌, inl, inr, ◌==◌, All, any, ltb,
  Bool-cases,
}
use comfy_shell_v.Prelude.Order.Sorting.{IsStrict, AllComparable, Comparable}
use comfy_shell_v.Db.{Item}
use comfy_shell_v.Items.{id_index}
use comfy_shell_v.Items.Listing.{comes_first}

-- What the database's comparison of texts is: a strict and total order.
pub record IsTextOrder (text_before : String → String → Bool) : Type 0 where
  pub irreflexive : (s : String) → text_before s s ≡ false
  pub transitive :
      (s t u : String) → text_before s t ≡ true → text_before t u ≡ true → text_before s u ≡ true
  pub total :
      (s t : String) → (t == s) ≡ false → (text_before s t ≡ true) ⊎ (text_before t s ≡ true)

module _ (text_before : String → String → Bool) (order : IsTextOrder text_before) where
  pub comes_first-IsStrict : IsStrict (comes_first text_before)
  comes_first-IsStrict = record {
    irreflexive = λ i. ground (arith, order.irreflexive i.id);
    transitive = λ a b c h k. ground (arith, h, k, order.transitive c.id b.id a.id);
  }

  comparable : (i j : Item) → (j.id == i.id) ≡ false → Comparable (comes_first text_before) i j
  comparable i j h = elim (Bool-cases (ltb i.created_at j.created_at)) [
    | inl earlier ↦ inr (ground (arith, earlier))
    | inr late ↦ elim (Bool-cases (ltb j.created_at i.created_at)) [
      | inl later ↦ inl (ground (arith, later))
      | inr early ↦ elim (order.total i.id j.id h) [
        | inl first ↦ inr (ground (arith, late, early, first))
        | inr second ↦ inl (ground (arith, late, early, second))
      ]
    ]
  ]

  distinct-All :
      (i : Item) (rows : List Item)
      → any (λ j. j.id == i.id) rows ≡ false
      → All (Comparable (comes_first text_before) i) rows
  distinct-All i [] h = tt
  distinct-All i (j ∷ rows) h =
      (comparable i j (ground (arith, h)), distinct-All i rows (ground (arith, h)))

  pub id_index-AllComparable :
      (rows : List Item) → id_index rows ≡ true → AllComparable (comes_first text_before) rows
  id_index-AllComparable [] h = tt
  id_index-AllComparable (i ∷ rows) h =
      (distinct-All i rows (ground (arith, h)), id_index-AllComparable rows (ground (arith, h)))
