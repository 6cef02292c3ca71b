-- ===== src/Prelude/Order/Sorting.antt =====
-- Sorting by a strict order: what it leaves in order, and what a test picks out of it.
use mathlib.Core.Path.{◌≡◌, refl}
use mathlib.Core.Logic.{◌⊎◌, inl, inr}
use mathlib.Core.Bool.{Bool, true, false}
use mathlib.Core.List.{List, [], ◌∷◌, ◌++◌}
use native.Mathlib.Omega.{arith}
use comfy_shell_v.Prelude.Tests.{if◌then◌else◌, Bool-cases}
use comfy_shell_v.Prelude.Lists.{All, filterb}
use comfy_shell_v.Prelude.Order.{insert_sorted, sorted_by}

pub record IsStrict {A : Type 0} (lt : A → A → Bool) : Type 0 where
  pub irreflexive : (a : A) → lt a a ≡ false
  pub transitive : (a b c : A) → lt a b ≡ true → lt b c ≡ true → lt a c ≡ true

module _ {A : Type 0} (lt : A → A → Bool) where
  -- Each entry comes before all that follow it.
  abbrev pub IsSorted : List A → Type 0
  IsSorted [] = Unit
  IsSorted (x ∷ xs) = All (λ y. lt x y ≡ true) xs × IsSorted xs

  abbrev pub Comparable : A → A → Type 0
  Comparable a b = (lt a b ≡ true) ⊎ (lt b a ≡ true)

  -- Of any two entries one comes before the other.
  abbrev pub AllComparable : List A → Type 0
  AllComparable [] = Unit
  AllComparable (x ∷ xs) = All (Comparable x) xs × AllComparable xs

  All-insert {ℓ} :
      (P : A → Type ℓ) (x : A) (ys : List A) → P x → All P ys → All P (insert_sorted lt x ys)
  All-insert P x [] h k = (h, k)
  All-insert P x (y ∷ ys) h (k, ks) =
      elim (lt x y) as (λ b. All P (if b then x ∷ y ∷ ys else y ∷ insert_sorted lt x ys)) [
        | true ↦ (h, (k, ks))
        | false ↦ (k, All-insert P x ys h ks)
      ]

  All-sorted {ℓ} : (P : A → Type ℓ) (xs : List A) → All P xs → All P (sorted_by lt xs)
  All-sorted P [] h = h
  All-sorted P (x ∷ xs) (h, hs) = All-insert P x (sorted_by lt xs) h (All-sorted P xs hs)

  module _ (strict : IsStrict lt) where
    All-trans :
        (x y : A) (ys : List A)
        → lt x y ≡ true
        → All (λ z. lt y z ≡ true) ys
        → All (λ z. lt x z ≡ true) ys
    All-trans x y [] h hs = tt
    All-trans x y (z ∷ zs) h (k, ks) = (strict.transitive x y z h k, All-trans x y zs h ks)

    insert-IsSorted :
        (x : A) (ys : List A)
        → All (Comparable x) ys
        → IsSorted ys
        → IsSorted (insert_sorted lt x ys)
    insert-IsSorted x [] c h = (tt, tt)
    insert-IsSorted x (y ∷ ys) (c, cs) (h, hs) = elim (Bool-cases (lt x y)) [
      | inl first ↦ rw first ((first, All-trans x y ys first h), (h, hs))
      | inr later ↦ elim c [
        | inl first ↦ absurd (ground (arith, first, later))
        | inr after ↦ rw later (All-insert _ x ys after h, insert-IsSorted x ys cs hs)
      ]
    ]

    pub sorted_by-IsSorted : (xs : List A) → AllComparable xs → IsSorted (sorted_by lt xs)
    sorted_by-IsSorted [] c = tt
    sorted_by-IsSorted (x ∷ xs) (c, cs) =
        insert-IsSorted x (sorted_by lt xs) (All-sorted _ xs c) (sorted_by-IsSorted xs cs)

    -- An entry that comes before all of the list is put at its head.
    insert_sorted-head :
        (x : A) (ys : List A) → All (λ y. lt x y ≡ true) ys → insert_sorted lt x ys ≡ x ∷ ys
    insert_sorted-head x [] h = refl
    insert_sorted-head x (y ∷ ys) (h, hs) = rw h refl

    All-filter {ℓ} :
        (P : A → Type ℓ) (test : A → Bool) (ys : List A) → All P ys → All P (filterb test ys)
    All-filter P test [] h = tt
    All-filter P test (y ∷ ys) (h, hs) =
        elim (test y) as (λ b. All P (if b then y ∷ filterb test ys else filterb test ys)) [
          | true ↦ (h, All-filter P test ys hs)
          | false ↦ All-filter P test ys hs
        ]

    filter-insert-taken :
        (test : A → Bool) (x : A) (ys : List A)
        → test x ≡ true
        → IsSorted ys
        → filterb test (insert_sorted lt x ys) ≡ insert_sorted lt x (filterb test ys)
    filter-insert-taken test x [] t h = rw t refl
    filter-insert-taken test x (y ∷ ys) t (h, hs) = elim (Bool-cases (lt x y)) [
      | inl first ↦
          let head =
            insert_sorted-head x (filterb test (y ∷ ys))
              (All-filter _ test (y ∷ ys) (first, All-trans x y ys first h)) in
          ground (arith, t, first, head)
      | inr later ↦ ground (arith, t, later, filter-insert-taken test x ys t hs)
    ]

    filter-insert-dropped :
        (test : A → Bool) (x : A) (ys : List A)
        → test x ≡ false
        → filterb test (insert_sorted lt x ys) ≡ filterb test ys
    filter-insert-dropped test x [] t = rw t refl
    filter-insert-dropped test x (y ∷ ys) t = ground (arith, t, filter-insert-dropped test x ys t)

    pub AllComparable-filter :
        (test : A → Bool) (xs : List A) → AllComparable xs → AllComparable (filterb test xs)
    AllComparable-filter test [] c = tt
    AllComparable-filter test (x ∷ xs) (c, cs) =
        elim (test x) as (λ b. AllComparable (if b then x ∷ filterb test xs else filterb test xs)) [
          | true ↦ (All-filter _ test xs c, AllComparable-filter test xs cs)
          | false ↦ AllComparable-filter test xs cs
        ]

    -- Picking by a test before the sorting or after it gives the same list.
    pub filter-sorted_by :
        (test : A → Bool) (xs : List A)
        → AllComparable xs
        → filterb test (sorted_by lt xs) ≡ sorted_by lt (filterb test xs)
    filter-sorted_by test [] c = refl
    filter-sorted_by test (x ∷ xs) (c, cs) =
        let before = filter-sorted_by test xs cs in
        elim (Bool-cases (test x)) [
          | inl t ↦ ground (
            arith,
            t,
            before,
            filter-insert-taken test x (sorted_by lt xs) t (sorted_by-IsSorted xs cs),
          )
          | inr t ↦ ground (arith, t, before, filter-insert-dropped test x (sorted_by lt xs) t)
        ]

    filter_later : (x : A) (ys : List A) → All (λ y. lt x y ≡ true) ys → filterb (lt x) ys ≡ ys
    filter_later x [] h = refl
    filter_later x (y ∷ ys) (h, hs) = ground (arith, h, filter_later x ys hs)

    All-at {ℓ} :
        (P : A → Type ℓ) (earlier : List A) (x : A) (later : List A)
        → All P (earlier ++ x ∷ later)
        → P x
    All-at P [] x later (h, hs) = h
    All-at P (y ∷ earlier) x later (h, hs) = All-at P earlier x later hs

    -- In a sorted list, the entries after one of them are those that stand behind it.
    pub filter-after :
        (earlier : List A) (x : A) (later : List A)
        → IsSorted (earlier ++ x ∷ later)
        → filterb (lt x) (earlier ++ x ∷ later) ≡ later
    filter-after [] x later (h, hs) = ground (arith, strict.irreflexive x, filter_later x later h)
    filter-after (y ∷ earlier) x later (h, hs) =
        let first : lt y x ≡ true = All-at _ earlier x later h in
        elim (Bool-cases (lt x y)) [
          | inl back ↦
              absurd (ground (arith, strict.transitive x y x back first, strict.irreflexive x))
          | inr later' ↦ ground (arith, later', filter-after earlier x later hs)
        ]
