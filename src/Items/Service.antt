-- ===== src/Items/Service.antt =====
-- app/services/item_service.py, but for `list_items`.
use text.Mathlib.Text.{find?}
use comfy_shell_v.Prelude.{
  ℕ, String, Bool, false, not, ◌||◌, Option, none, some, ◌==◌, is_some, if◌then◌else◌, ⊤,
}
use comfy_shell_v.Prelude.Json.{end, field, str, number}
use comfy_shell_v.Prelude.Decimal.{show_ℕ}
use comfy_shell_v.Db.{Item, ItemStatus}
use comfy_shell_v.Uow.{
  Action, pure, raise, raise_if, or_raise, asks, commit, rollback, with_uow, on_integrity_error,
  ◌>>=◌, ◌>>◌,
}
use comfy_shell_v.Items
use comfy_shell_v.Items.{MutationResult, updated, not_found, version_conflict}

pub record ItemCreateRequest : Type 0 where
  pub name : String
  pub description : Option String
  pub status : ItemStatus

pub record ItemUpdateRequest : Type 0 where
  pub expected_version : ℕ
  pub name : Option String
  pub description : Option String
  pub status : Option ItemStatus

pub record ItemResponse : Type 0 where
  pub id : String
  pub owner_id : String
  pub name : String
  pub description : Option String
  pub status : ItemStatus
  pub version : ℕ
  pub created_at : String
  pub updated_at : String

abbrev pub to_response : (ℕ → String) → Item → ItemResponse
to_response isoformat i = record {
  id = i.id;
  owner_id = i.owner_id;
  name = i.name;
  description = i.description;
  status = i.status;
  version = i.version;
  created_at = isoformat i.created_at;
  updated_at = isoformat i.updated_at;
}

abbrev pub item_to_response : Item → Action ItemResponse
item_to_response i = asks (λ env. to_response env.isoformat i)

-- `needle in text`
abbrev occurs : String → String → Bool
occurs needle message = is_some (find? message needle)

-- `map_integrity_error`, raised
pub raise_integrity {ℓ} : {A : Type ℓ} → String → Action A
raise_integrity message =
    raise
      (if occurs "uq_items_owner_name_active" message || occurs "items.owner_id, items.name" message
        then "ITEM_NAME_CONFLICT"
        else "RESOURCE_CONFLICT")
      end

-- `except IntegrityError as exc:` of both methods
pub rolled_back {ℓ} : {A : Type ℓ} → String → Action A
unfolding raise_integrity
rolled_back message = do rollback; raise_integrity message

unfoldable pub create_item : String → ItemCreateRequest → Action ItemResponse
unfolding rolled_back Items.create Items.get_active_by_name
create_item owner_id req = with_uow do
  existing ← Items.get_active_by_name owner_id req.name
  raise_if (is_some existing) "ITEM_NAME_CONFLICT" (field "name" (str req.name) end)
  item ←
      on_integrity_error
        (do i ← Items.create owner_id req.name req.description req.status; commit; pure i)
        rolled_back
  item_to_response item

unfoldable pub get_item : String → String → Action ItemResponse
unfolding Items.get_active_by_id
get_item owner_id item_id = with_uow do
  found ← Items.get_active_by_id owner_id item_id
  item ← or_raise found "ITEM_NOT_FOUND" (field "item_id" (str item_id) end)
  item_to_response item

-- The end of `update_item` and `delete_item`
pub finish_mutation : String → MutationResult → Action ItemResponse
finish_mutation item_id not_found = raise "ITEM_NOT_FOUND" (field "item_id" (str item_id) end)
finish_mutation item_id (version_conflict v) =
    raise "ITEM_VERSION_CONFLICT" (field "current_version" (number (show_ℕ v) false) end)
finish_mutation item_id (updated item) = do commit; item_to_response item

abbrev taken_by_other : String → Option Item → Bool
taken_by_other item_id none = false
taken_by_other item_id (some i) = not (i.id == item_id)

-- The check of a new name in `update_item`
pub check_name : String → String → Option String → Action ⊤
unfolding Items.get_active_by_name
check_name owner_id item_id none = pure tt
check_name owner_id item_id (some name) = do
  existing ← Items.get_active_by_name owner_id name
  raise_if (taken_by_other item_id existing) "ITEM_NAME_CONFLICT" (field "name" (str name) end)

unfoldable pub update_item : String → String → ItemUpdateRequest → Action ItemResponse
unfolding check_name finish_mutation rolled_back Items.update_cas
update_item owner_id item_id req = with_uow do
  check_name owner_id item_id req.name
  result ←
      on_integrity_error
        (Items.update_cas owner_id item_id req.expected_version req.name req.description req.status)
        rolled_back
  finish_mutation item_id result

unfoldable pub delete_item : String → String → ℕ → String → Action ItemResponse
unfolding finish_mutation Items.soft_delete_cas
delete_item owner_id item_id expected_version deleted_by = with_uow do
  result ← Items.soft_delete_cas owner_id item_id expected_version deleted_by
  finish_mutation item_id result
