-- ===== src/Items.antt =====
-- app/repositories/item_repository.py and the unique index of app/models/item.py, over the open
-- session. The primary key and the index leave at most one row for a lookup by a key.
pub mod Service
pub mod Cursor
pub mod Listing
pub mod Rank
pub mod Paging
pub mod Index
pub mod Mutation
pub mod Conflict
pub mod Tests
use comfy_shell_v.Prelude.{
  ℕ, String, Bool, true, not, ◌&&◌, Option, none, some, List, [], ◌∷◌, ◌++◌, ◌==◌, eqb, ◌+◌, find,
  any, update_where, get_or, is_some, ⊤,
}
use comfy_shell_v.Db.{Db, Item, ItemStatus}
use comfy_shell_v.Uow.{Action, pure, raise, gets, ask, modify, refuse_if, ◌>>=◌, ◌>>◌}

-- app/repositories/base.py
pub data MutationResult : Type 0 where
  updated : Item → MutationResult
  not_found : MutationResult
  version_conflict : (current_version : ℕ) → MutationResult

-- `deleted_at IS NULL`
abbrev pub is_active : Item → Bool
is_active i = not (is_some i.deleted_at)

abbrev pub named : String → String → Item → Bool
named owner_id name i = i.owner_id == owner_id && i.name == name && is_active i

abbrev pub identified : String → String → Item → Bool
identified owner_id item_id i = i.owner_id == owner_id && i.id == item_id && is_active i

-- The WHERE clause of both compare-and-set statements.
abbrev pub expected : String → String → ℕ → Item → Bool
expected owner_id item_id version i =
    i.owner_id == owner_id && i.id == item_id && eqb i.version version && is_active i

-- `uq_items_owner_name_active`: no two active rows share owner and name.
abbrev pub name_index : List Item → Bool
name_index [] = true
name_index (i ∷ rows) = not (is_active i && any (named i.owner_id i.name) rows) && name_index rows

abbrev pub id_index : List Item → Bool
id_index [] = true
id_index (i ∷ rows) = not (any (λ j. j.id == i.id) rows) && id_index rows

-- A statement that would leave the table with a broken index is refused.
pub write_items : List Item → Action ⊤
write_items rows = do
  refuse_if (not (id_index rows)) "items_pkey"
  refuse_if (not (name_index rows)) "uq_items_owner_name_active"
  modify (λ db. record db { items = rows })

-- `ItemRepository.create`, with the defaults of the model's columns
unfoldable pub create : String → String → Option String → ItemStatus → Action Item
unfolding write_items
create owner_id name description status = do
  id ← ask (λ env t. env.uuid t)
  created ← ask (λ env t. env.now t)
  updated_at ← ask (λ env t. env.now t)
  let item : Item = record {
    id = id;
    owner_id = owner_id;
    name = name;
    description = description;
    status = status;
    version = 1;
    created_at = created;
    updated_at = updated_at;
    deleted_at = none;
    deleted_by = none;
  }
  rows ← gets (λ db. db.items)
  write_items (rows ++ item ∷ [])
  pure item

unfoldable pub get_active_by_id : String → String → Action (Option Item)
get_active_by_id owner_id item_id = gets (λ db. find (identified owner_id item_id) db.items)

unfoldable pub get_active_by_name : String → String → Action (Option Item)
get_active_by_name owner_id name = gets (λ db. find (named owner_id name) db.items)

-- The values of `update_cas`; an argument that is None leaves its column alone.
abbrev pub revised : Option String → Option String → Option ItemStatus → ℕ → Item → Item
revised name description status now i = record i {
  version = i.version + 1;
  name = get_or name i.name;
  description = elim description [ none ↦ i.description | some d ↦ some d ];
  status = get_or status i.status;
  updated_at = now;
}

-- The values of `soft_delete_cas`
abbrev pub retired : String → ℕ → ℕ → Item → Item
retired deleted_by now stamp i = record i {
  deleted_at = some now;
  deleted_by = some deleted_by;
  version = i.version + 1;
  updated_at = stamp;
}

-- What both statements answer when no row fits the WHERE clause
abbrev pub no_row : Option Item → MutationResult
no_row none = not_found
no_row (some current) = version_conflict current.version

-- `UPDATE items SET ... WHERE <expected> RETURNING items`
pub cas : String → String → ℕ → (Item → Item) → Action MutationResult
unfolding write_items get_active_by_id
cas owner_id item_id version change = do
  rows ← gets (λ db. db.items)
  let row : Option Item = find (expected owner_id item_id version) rows
  write_items (update_where (expected owner_id item_id version) change rows)
  current ← get_active_by_id owner_id item_id
  pure (elim row [ some i ↦ updated (change i) | none ↦ no_row current ])

unfoldable pub update_cas :
    String → String → ℕ → Option String → Option String → Option ItemStatus → Action MutationResult
unfolding cas
update_cas owner_id item_id version name description status = do
  now ← ask (λ env t. env.now t)
  cas owner_id item_id version (revised name description status now)

unfoldable pub soft_delete_cas : String → String → ℕ → String → Action MutationResult
unfolding cas
soft_delete_cas owner_id item_id version deleted_by = do
  now ← ask (λ env t. env.now t)
  updated_at ← ask (λ env t. env.now t)
  cas owner_id item_id version (retired deleted_by now updated_at)
