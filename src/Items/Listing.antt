-- ===== src/Items/Listing.antt =====
-- `list_active` of app/repositories/item_repository.py and `list_items` of
-- app/services/item_service.py.
use comfy_shell_v.Prelude.{
  ℕ, String, Bool, true, false, ◌&&◌, ◌||◌, Option, none, some, List, map, ◌==◌, ltb, suc, take,
  filterb, length, get_last?, if◌then◌else◌,
}
use comfy_shell_v.Prelude.Order.{before, sorted_by}
use comfy_shell_v.Prelude.Json.{end, field, str}
use comfy_shell_v.Db.{Item, ItemStatus, draft, active, archived}
use comfy_shell_v.Uow.{Action, pure, raise_if, gets, asks, with_uow, ◌>>=◌, ◌>>◌}
use comfy_shell_v.Items.{is_active}
use comfy_shell_v.Items.Service.{ItemResponse, to_response}
use comfy_shell_v.Items.Cursor.{Page, encode_cursor, decode_cursor}

abbrev same_status : ItemStatus → ItemStatus → Bool
same_status draft draft = true
same_status active active = true
same_status archived archived = true
same_status _ _ = false

abbrev has_status : Option ItemStatus → ItemStatus → Bool
has_status none s = true
has_status (some wanted) s = same_status s wanted

-- The filters that every page of a list has
abbrev pub listed : String → Option ItemStatus → Item → Bool
listed owner_id status i = i.owner_id == owner_id && is_active i && has_status status i.status

-- The filter of a cursor
abbrev pub is_past : (String → String → Bool) → Option (ℕ × String) → Item → Bool
is_past text_before none i = true
is_past text_before (some (created_at, item_id)) i =
    before text_before i.created_at i.id created_at item_id

-- ORDER BY created_at DESC, id DESC
abbrev pub comes_first : (String → String → Bool) → Item → Item → Bool
comes_first text_before a b = before text_before b.created_at b.id a.created_at a.id

-- The statement without its limit
abbrev pub rows_past :
    (String → String → Bool)
    → String
    → Option ItemStatus
    → Option (ℕ × String)
    → List Item
    → List Item
rows_past text_before owner_id status position rows =
    sorted_by (comes_first text_before)
      (filterb (λ i. listed owner_id status i && is_past text_before position i) rows)

-- `if cursor: ...`
abbrev pub position_of : Option String → Action (Option (ℕ × String))
position_of none = pure none
position_of (some cursor) =
    if cursor == "" then pure none else (do position ← decode_cursor cursor; pure (some position))

abbrev cursor_of : Option Item → Action (Option String)
cursor_of none = pure none
cursor_of (some last) = do cursor ← encode_cursor last.created_at last.id; pure (some cursor)

-- `if len(rows) > limit and page_items: ...`
abbrev pub next_of : ℕ → List Item → Action (Option String)
next_of limit rows =
    if ltb limit (length rows) then cursor_of (get_last? (take limit rows)) else pure none

unfoldable pub list_active : String → Option ItemStatus → ℕ → Option String → Action (Page Item)
unfolding encode_cursor decode_cursor
list_active owner_id status limit cursor = do
  position ← position_of cursor
  text_before ← asks (λ env. env.text_before)
  rows ← gets (λ db. take (suc limit) (rows_past text_before owner_id status position db.items))
  next_cursor ← next_of limit rows
  pure (record { rows = take limit rows; next_cursor = next_cursor; limit = limit })

pub record ItemListResponse : Type 0 where
  pub items : List ItemResponse
  pub next_cursor : Option String
  pub limit : ℕ

unfoldable pub list_items : String → Option ItemStatus → ℕ → Option String → Action ItemListResponse
unfolding list_active
list_items owner_id status limit cursor = do
  raise_if (ltb limit 1 || ltb 100 limit) "REQUEST_INVALID"
      (field "limit" (str "must be between 1 and 100") end)
  with_uow do
    page ← list_active owner_id status limit cursor
    isoformat ← asks (λ env. env.isoformat)
    pure (record {
      items = map (to_response isoformat) page.rows;
      next_cursor = page.next_cursor;
      limit = page.limit;
    })
