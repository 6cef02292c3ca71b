-- ===== src/Items/Paging.antt =====
-- The pages of `list_active` of app/repositories/item_repository.py, one after the other.
use comfy_shell_v.Prelude.{
  ℕ, zero, suc, String, Bool, true, false, ◌≡◌, refl, sym, ap, ◌∙◌, subst, arith, Option, none,
  some, List, [], ◌∷◌, ◌++◌, ◌&&◌, Bool-cases, inl, inr, ltb, length, filterb,
}
use mathlib.Core.List.{append-nil, append_assoc}
use comfy_shell_v.Prelude.Order.{sorted_by}
use comfy_shell_v.Prelude.Order.Sorting.{
  IsSorted, AllComparable, AllComparable-filter, sorted_by-IsSorted, filter-sorted_by, filter-after,
}
use comfy_shell_v.Prelude.Taking.{take-all, take-take-suc, length-take-suc, Cut, cut}
use comfy_shell_v.Db.{Item, ItemStatus}
use comfy_shell_v.Uow.{Env, World, Action, pure, raise_crash, ok, ◌>>=◌}
use comfy_shell_v.Items.{id_index}
use comfy_shell_v.Items.Cursor.{IsCodec, encoded, decoded-encoded, encode_cursor, decode_cursor}
use comfy_shell_v.Items.Listing.{listed, comes_first, rows_past, position_of, list_active}
use comfy_shell_v.Items.Rank.{IsTextOrder, comes_first-IsStrict, id_index-AllComparable}

-- A client that asks for a page after the other, as long as there is a next cursor, at most `fuel`
-- times.
abbrev pub all_pages : ℕ → String → Option ItemStatus → ℕ → Option String → Action (List Item)
all_pages zero owner_id status limit cursor = raise_crash
all_pages (suc fuel) owner_id status limit cursor = do
  page ← list_active owner_id status limit cursor
  rest ← elim page.next_cursor [
    | none ↦ pure []
    | some c ↦ all_pages fuel owner_id status limit (some c)
  ]
  pure (page.rows ++ rest)

filter-and :
    (p q : Item → Bool) (rows : List Item)
    → filterb (λ i. p i && q i) rows ≡ filterb q (filterb p rows)
filter-and p q [] = refl
filter-and p q (i ∷ rows) = ground (arith, filter-and p q rows)

filter-true : (rows : List Item) → filterb (λ i. true) rows ≡ rows
filter-true [] = refl
filter-true (i ∷ rows) = ap (λ xs. i ∷ xs) (filter-true rows)

module _ (env : Env) (w : World) (owner_id : String) (status : Option ItemStatus)
    (codec : IsCodec env) (order : IsTextOrder env.text_before)
    (unique : id_index w.session.items ≡ true) where
  abbrev fits : List Item
  fits = filterb (listed owner_id status) w.session.items

  abbrev whole : List Item
  whole = sorted_by (comes_first env.text_before) fits

  comparable : AllComparable (comes_first env.text_before) fits
  comparable =
      AllComparable-filter (comes_first env.text_before)
        (comes_first-IsStrict env.text_before order) (listed owner_id status) w.session.items
        (id_index-AllComparable env.text_before order w.session.items unique)

  rows_past-none : rows_past env.text_before owner_id status none w.session.items ≡ whole
  rows_past-none =
      ap (sorted_by (comes_first env.text_before))
        (filter-and (listed owner_id status) (λ i. true) w.session.items ∙ filter-true fits)

  -- The rows past an entry of the list are those behind it.
  rows_past-some :
      (earlier : List Item) (i : Item) (later : List Item)
      → whole ≡ earlier ++ i ∷ later
      → rows_past env.text_before owner_id status (some (i.created_at, i.id)) w.session.items
        ≡ later
  rows_past-some earlier i later e =
      let lt = comes_first env.text_before in
      let strict = comes_first-IsStrict env.text_before order in
      ap (sorted_by lt) (filter-and (listed owner_id status) (lt i) w.session.items)
      ∙ sym (filter-sorted_by lt strict (lt i) fits comparable)
      ∙ ap (filterb (lt i)) e
      ∙ filter-after lt strict earlier i later
          (subst (IsSorted lt) e (sorted_by-IsSorted lt strict fits comparable))

  -- What the client has got to: the rows past its position are the end of the whole list.
  record At (position : Option (ℕ × String)) (left : List Item) : Type 0 where
    before : List Item
    split : whole ≡ before ++ left
    past : rows_past env.text_before owner_id status position w.session.items ≡ left

  position_of-encoded :
      (created_at : ℕ) (id : String)
      → position_of (some (encoded env created_at id)) env w ≡ (ok (some (created_at, id)), w)
  unfolding decode_cursor
  position_of-encoded created_at id =
      ground (arith, decoded-encoded env created_at id codec, codec.not_empty created_at id)

  module _ (limit : ℕ) (cursor : Option String) (position : Option (ℕ × String)) (left : List Item)
      (at : At position left) (here : position_of cursor env w ≡ (ok position, w)) where
    last_page :
        ltb limit (length left) ≡ false
        → list_active owner_id status limit cursor env w
          ≡ (ok (record { rows = left; next_cursor = none; limit = limit }), w)
    unfolding list_active
    last_page last = ground (
      arith,
      here,
      at.past,
      last,
      length-take-suc limit left,
      take-take-suc limit left,
      take-all limit left last,
    )

    page_before_more :
        (c : Cut limit left)
        → ltb limit (length left) ≡ true
        → list_active owner_id status limit cursor env w ≡ (
          ok (record {
            rows = c.earlier ++ c.last ∷ [];
            next_cursor = some (encoded env c.last.created_at c.last.id);
            limit = limit;
          }),
          w,
        )
    unfolding list_active encode_cursor
    page_before_more c more = ground (
      arith,
      here,
      at.past,
      more,
      length-take-suc limit left,
      take-take-suc limit left,
      c.taken,
      c.last_taken,
    )

  pages_from :
      (fuel limit : ℕ) (cursor : Option String) (position : Option (ℕ × String)) (left : List Item)
      → At position left
      → position_of cursor env w ≡ (ok position, w)
      → ltb (length left) fuel ≡ true
      → all_pages fuel owner_id status (suc limit) cursor env w ≡ (ok left, w)
  unfolding list_active
  pages_from zero limit cursor position left at here enough = absurd (ground arith)
  pages_from (suc fuel) limit cursor position left at here enough =
      elim (Bool-cases (ltb (suc limit) (length left))) [
        | inr last ↦
            let page = last_page (suc limit) cursor position left at here last in
            ground (arith, page, append-nil left)
        | inl more ↦
            let c = cut limit left more in
            let page = page_before_more (suc limit) cursor position left at here c more in
            let split : whole ≡ (at.before ++ c.earlier) ++ c.last ∷ c.later =
              at.split
              ∙ ap (λ xs. at.before ++ xs) c.whole
              ∙ sym (append_assoc at.before c.earlier (c.last ∷ c.later)) in
            let next =
              pages_from fuel limit (some (encoded env c.last.created_at c.last.id))
                (some (c.last.created_at, c.last.id)) c.later
                (record {
                  before = (at.before ++ c.earlier) ++ c.last ∷ [];
                  split = split ∙ sym (append_assoc (at.before ++ c.earlier) (c.last ∷ []) c.later);
                  past = rows_past-some (at.before ++ c.earlier) c.last c.later split;
                })
                (position_of-encoded c.last.created_at c.last.id)
                (ground (arith, enough, c.shorter)) in
            ground (arith, page, next, c.whole, append_assoc c.earlier (c.last ∷ []) c.later)
      ]

  -- With a limit of at least 1, and more calls than there are items, the pages from the first on,
  -- put together, are all the items of the owner that are active and have the status, in the order
  -- of the list, each once: no item is left out or comes twice, where ids are unique, the texts are
  -- in a total order and the codecs undo each other.
  pub all_pages-rows_past :
      (fuel limit : ℕ)
      → ltb (length (rows_past env.text_before owner_id status none w.session.items)) fuel ≡ true
      → all_pages fuel owner_id status (suc limit) none env w
        ≡ (ok (rows_past env.text_before owner_id status none w.session.items), w)
  all_pages-rows_past fuel limit enough =
      pages_from fuel limit none none
        (rows_past env.text_before owner_id status none w.session.items)
        (record { before = []; split = sym rows_past-none; past = refl }) refl enough
