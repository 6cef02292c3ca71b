-- ===== src/Items/Index.antt =====
-- What a compare-and-set on the version leaves of the rows it is about.
use comfy_shell_v.Prelude.{
  ◌++◌, some, Bool-cases, inl, inr, ap, ℕ, String, Bool, true, false, ◌≡◌, refl, arith, none, List,
  [], ◌∷◌, find, any, update_where, eq_iff, ◌+◌, is_some, ◌==◌,
}
use comfy_shell_v.Items.{Item, expected, identified, id_index, is_active}

-- A change that moves the version on leaves no row at the version that was expected.
pub find-expected-update :
    (owner_id item_id : String) (v : ℕ) (change : Item → Item) (rows : List Item)
    → ((i : Item) → (change i).version ≡ i.version + 1)
    → find (expected owner_id item_id v) (update_where (expected owner_id item_id v) change rows)
      ≡ none
find-expected-update owner_id item_id v change [] h = refl
find-expected-update owner_id item_id v change (i ∷ rows) h =
    ground (arith, h i, find-expected-update owner_id item_id v change rows h)

-- No row of another id is at the id.
find-identified_of_any :
    (owner_id item_id key : String) (rows : List Item)
    → key ≡ item_id
    → any (λ j. j.id == key) rows ≡ false
    → find (identified owner_id item_id) rows ≡ none
find-identified_of_any owner_id item_id key [] e h = refl
find-identified_of_any owner_id item_id key (i ∷ rows) e h = ground (
  arith,
  eq_iff i.id key,
  eq_iff i.id item_id,
  find-identified_of_any owner_id item_id key rows e,
)

any-id-update :
    (key : String) (test : Item → Bool) (change : Item → Item) (rows : List Item)
    → ((i : Item) → (change i).id ≡ i.id)
    → any (λ j. j.id == key) (update_where test change rows) ≡ any (λ j. j.id == key) rows
any-id-update key test change [] h = refl
any-id-update key test change (i ∷ rows) h =
    ground (arith, h i, any-id-update key test change rows h)

any-id_of_find :
    (owner_id item_id key : String) (v : ℕ) (rows : List Item)
    → key ≡ item_id
    → is_some (find (expected owner_id item_id v) rows) ≡ true
    → any (λ j. j.id == key) rows ≡ true
any-id_of_find owner_id item_id key v [] e h = cc
any-id_of_find owner_id item_id key v (i ∷ rows) e h =
    ground
      (arith, eq_iff i.id key, eq_iff i.id item_id, any-id_of_find owner_id item_id key v rows e)

-- Where ids are unique, a row that was found is gone once the change makes it inactive.
pub find-identified-retire :
    (owner_id item_id : String) (v : ℕ) (change : Item → Item) (rows : List Item)
    → ((i : Item) → is_active (change i) ≡ false)
    → ((i : Item) → (change i).id ≡ i.id)
    → id_index rows ≡ true
    → is_some (find (expected owner_id item_id v) rows) ≡ true
    → find (identified owner_id item_id) (update_where (expected owner_id item_id v) change rows)
      ≡ none
find-identified-retire owner_id item_id v change [] dead keeps unique h = refl
find-identified-retire owner_id item_id v change (i ∷ rows) dead keeps unique h = ground (
  arith,
  dead i,
  keeps i,
  eq_iff i.id item_id,
  any-id-update i.id (expected owner_id item_id v) change rows keeps,
  find-identified_of_any owner_id item_id i.id
      (update_where (expected owner_id item_id v) change rows),
  any-id_of_find owner_id item_id i.id v rows,
  find-identified-retire owner_id item_id v change rows dead keeps,
)

-- Where no row has the id, the statement changes no row.
update_where_of_any :
    (owner_id item_id key : String) (v : ℕ) (change : Item → Item) (rows : List Item)
    → key ≡ item_id
    → any (λ j. j.id == key) rows ≡ false
    → update_where (expected owner_id item_id v) change rows ≡ rows
update_where_of_any owner_id item_id key v change [] e h = refl
update_where_of_any owner_id item_id key v change (i ∷ rows) e h = ground (
  arith,
  eq_iff i.id key,
  eq_iff i.id item_id,
  update_where_of_any owner_id item_id key v change rows e,
)

-- Where ids are unique, the statement changes the row that was found and no other.
pub find-expected_split :
    (owner_id item_id : String) (v : ℕ) (change : Item → Item) (rows : List Item) (i : Item)
    → id_index rows ≡ true
    → find (expected owner_id item_id v) rows ≡ some i
    → (expected owner_id item_id v i ≡ true)
      × (before : List Item) × (after : List Item) × (rows ≡ before ++ i ∷ after)
      × (update_where (expected owner_id item_id v) change rows ≡ before ++ change i ∷ after)
find-expected_split owner_id item_id v change [] i unique h = cc
find-expected_split owner_id item_id v change (x ∷ rows) i unique h =
    elim (Bool-cases (expected owner_id item_id v x)) [
      | inl fits ↦
          let same : x ≡ i = ground arith in
          (
            ground arith,
            [],
            rows,
            ap (λ y. y ∷ rows) same,
            ground (
              arith,
              eq_iff x.id item_id,
              update_where_of_any owner_id item_id x.id v change rows,
            ),
          )
      | inr other ↦
          let (fits, before, after, split, changed) =
            find-expected_split owner_id item_id v change rows i (ground arith) (ground arith) in
          (fits, x ∷ before, after, ap (λ r. x ∷ r) split, ground (arith, other, changed))
    ]
