-- ===== src/Items/Tests.antt =====
-- Runs of the item methods on a small environment, and the theorems at concrete inputs.
use comfy_shell_v.Prelude.{
  List, suc, ◌++◌, [], ◌∷◌, map, String, ℕ, ◌≡◌, refl, true, false, none, some,
}
use comfy_shell_v.Prelude.Json.{end, field, str}
use comfy_shell_v.Prelude.Decimal.{show_ℕ}
use comfy_shell_v.Db.{empty, Item, active}
use comfy_shell_v.Uow.{World, ◌>>=◌, ok, app_error}
use comfy_shell_v.Uow.Rules.{is_ok, found}
use comfy_shell_v.Fixture.{quiet_env, quiet_env-IsQuiet, start_world}
use comfy_shell_v.Items.{id_index}
use comfy_shell_v.Items.Service.{
  ItemCreateRequest, ItemUpdateRequest, ItemResponse, to_response, create_item, update_item,
  delete_item, get_item,
}
use comfy_shell_v.Items.Mutation.{Revised, update_item_cas}
use comfy_shell_v.Fixture.Codec.{codec_env, codec_env-IsCodec}
use comfy_shell_v.Fixture.TextOrder.{text_lt-IsTextOrder}
use comfy_shell_v.Items.Listing.{rows_past}
use comfy_shell_v.Items.Cursor.{encode_cursor, decode_cursor, decode_cursor-encode_cursor}
use comfy_shell_v.Items.Paging.{all_pages, all_pages-rows_past}
use comfy_shell_v.Items.Conflict.{update_item_once, get_item-delete_item}

abbrev first_item : ItemCreateRequest
first_item = record { name = "a"; description = none; status = active }

-- The item of the owner "me" gets the id of tick 1.
abbrev one_item : World
one_item = (create_item "me" first_item quiet_env start_world).1

abbrev renaming : ItemUpdateRequest
renaming = record { expected_version = 1; name = some "b"; description = none; status = none }

abbrev renamed : ItemResponse
renamed = record {
  id = "id-1";
  owner_id = "me";
  name = "b";
  description = none;
  status = active;
  version = 2;
  created_at = "20";
  updated_at = "50";
}

-- The calls that the theorems are about, run.
run_update : (update_item "me" "id-1" renaming quiet_env one_item).0 ≡ ok renamed
unfolding update_item create_item show_ℕ
run_update = refl

abbrev deleted : ItemResponse
deleted = record {
  id = "id-1";
  owner_id = "me";
  name = "a";
  description = none;
  status = active;
  version = 2;
  created_at = "20";
  updated_at = "60";
}

run_delete : (delete_item "me" "id-1" 1 "ann" quiet_env one_item).0 ≡ ok deleted
unfolding delete_item create_item show_ℕ
run_delete = refl

one_item_index : id_index (found quiet_env one_item).items ≡ true
unfolding create_item show_ℕ
one_item_index = refl

update_item_cas_example :
    (before : List Item) × (after : List Item) × (i : Item) × (j : Item) × ((found quiet_env
        one_item).items
      ≡ before ++ i ∷ after)
    × Revised "me" "id-1" renaming (quiet_env.now (suc one_item.tick)) i j
    × ((update_item "me" "id-1" renaming quiet_env one_item).1.committed
        ≡ record (found quiet_env one_item) { items = before ++ j ∷ after })
    × (renamed ≡ to_response quiet_env.isoformat j)
update_item_cas_example =
    update_item_cas quiet_env one_item "me" "id-1" renaming renamed one_item_index run_update

update_item_once_example :
    let (_, w') = update_item "me" "id-1" renaming quiet_env one_item in
    (is_ok (update_item "me" "id-1" renaming quiet_env w').0 ≡ false)
    × (is_ok (delete_item "me" "id-1" 1 "ann" quiet_env w').0 ≡ false)
update_item_once_example =
    update_item_once quiet_env one_item "me" "id-1" renaming quiet_env-IsQuiet renamed run_update
      renaming "ann" refl

get_item-delete_item_example :
    (get_item "me" "id-1" quiet_env (delete_item "me" "id-1" 1 "ann" quiet_env one_item).1).0
    ≡ app_error "ITEM_NOT_FOUND" (field "item_id" (str "id-1") end)
get_item-delete_item_example =
    get_item-delete_item quiet_env one_item "me" "id-1" "ann" 1 deleted quiet_env-IsQuiet
      one_item_index run_delete

-- Two items of one owner, and a limit of 1
abbrev item_at : String → ℕ → Item
item_at id created_at = record {
  id = id;
  owner_id = "me";
  name = id;
  description = none;
  status = active;
  version = 1;
  created_at = created_at;
  updated_at = created_at;
  deleted_at = none;
  deleted_by = none;
}

abbrev paged_world : World
paged_world = record {
  committed = empty;
  session = record empty { items = item_at "x" 3 ∷ item_at "y" 5 ∷ item_at "z" 3 ∷ [] };
  tick = 0;
}

run_pages :
    map (λ i. i.id) (rows_past codec_env.text_before "me" none none paged_world.session.items)
    ≡ "y" ∷ "z" ∷ "x" ∷ []
run_pages = refl

decode_cursor-encode_cursor_example :
    (do cursor ← encode_cursor 3 "x"; decode_cursor cursor) codec_env paged_world
    ≡ (ok (3, "x"), paged_world)
decode_cursor-encode_cursor_example =
    decode_cursor-encode_cursor codec_env paged_world 3 "x" codec_env-IsCodec

all_pages-rows_past_example :
    all_pages 4 "me" none 1 none codec_env paged_world
    ≡ (ok (rows_past codec_env.text_before "me" none none paged_world.session.items), paged_world)
all_pages-rows_past_example =
    all_pages-rows_past codec_env paged_world "me" none codec_env-IsCodec text_lt-IsTextOrder refl 4
      0 refl
