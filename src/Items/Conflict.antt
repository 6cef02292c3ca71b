-- ===== src/Items/Conflict.antt =====
-- Two calls on one item, one after the other, when no other request commits between them.
use comfy_shell_v.Prelude.{
  ℕ, String, true, false, ◌≡◌, refl, arith, none, is_some, find, update_where, suc,
}
use comfy_shell_v.Prelude.Json.{end, field, str}
use comfy_shell_v.Uow.{Env, World, ok, app_error}
use comfy_shell_v.Uow.Rules.{is_ok, found, IsQuiet}
use comfy_shell_v.Items.{expected, revised, retired, id_index}
use comfy_shell_v.Items.Index.{find-expected-update, find-identified-retire}
use comfy_shell_v.Items.Mutation.{update_item_finds}
use comfy_shell_v.Items.Service.{
  ItemUpdateRequest, ItemResponse, update_item, delete_item, get_item,
}

-- An update cannot return when no active row has the expected version.
update_item_needs_version :
    (env : Env) (w : World) (owner_id item_id : String) (req : ItemUpdateRequest)
    → find (expected owner_id item_id req.expected_version) (found env w).items ≡ none
    → is_ok (update_item owner_id item_id req env w).0 ≡ false
unfolding update_item
update_item_needs_version env w owner_id item_id req h = ground arith

delete_item_needs_version :
    (env : Env) (w : World) (owner_id item_id deleted_by : String) (v : ℕ)
    → find (expected owner_id item_id v) (found env w).items ≡ none
    → is_ok (delete_item owner_id item_id v deleted_by env w).0 ≡ false
unfolding delete_item
delete_item_needs_version env w owner_id item_id deleted_by v h = ground arith

module _ (env : Env) (w : World) (owner_id item_id : String) (req : ItemUpdateRequest)
    (quiet : IsQuiet env) (resp : ItemResponse)
    (first : (update_item owner_id item_id req env w).0 ≡ ok resp) where
  no_row_at_version :
      find
        (expected owner_id item_id req.expected_version)
        (found env (update_item owner_id item_id req env w).1).items
      ≡ none
  no_row_at_version =
      let (i, here, same, left) = update_item_finds env w owner_id item_id req resp first in
      let (_, w') = update_item owner_id item_id req env w in
      ground (
        arith,
        left,
        quiet w'.tick w'.committed,
        find-expected-update owner_id item_id req.expected_version
            (revised req.name req.description req.status (env.now (suc w.tick))) (found env w).items
            (λ i. refl),
      )

  -- When no other request commits, after an update of an item has returned, every other update and
  -- every deletion of the item that names the same expected version does not return.
  pub update_item_once :
      (other : ItemUpdateRequest) (deleted_by : String)
      → other.expected_version ≡ req.expected_version
      → let (_, w') = update_item owner_id item_id req env w in
        (is_ok (update_item owner_id item_id other env w').0 ≡ false)
        × (is_ok (delete_item owner_id item_id req.expected_version deleted_by env w').0 ≡ false)
  update_item_once other deleted_by e =
      let (_, w') = update_item owner_id item_id req env w in
      (
        update_item_needs_version env w' owner_id item_id other (rw e no_row_at_version),
        delete_item_needs_version env w' owner_id item_id deleted_by req.expected_version
            no_row_at_version,
      )

module _ (env : Env) (w : World) (owner_id item_id deleted_by : String) (v : ℕ) where
  delete_item_cas :
      (resp : ItemResponse)
      → (delete_item owner_id item_id v deleted_by env w).0 ≡ ok resp
      → (is_some (find (expected owner_id item_id v) (found env w).items) ≡ true)
        × ((delete_item owner_id item_id v deleted_by env w).1.committed.items
            ≡ update_where
                (expected owner_id item_id v)
                (retired deleted_by (env.now (suc w.tick)) (env.now (suc (suc w.tick))))
                (found env w).items)
  unfolding delete_item
  delete_item_cas resp h = ground arith

  -- Where ids are unique and no other request commits, an item whose deletion has returned is not
  -- found by `get_item`.
  pub get_item-delete_item :
      (resp : ItemResponse)
      → IsQuiet env
      → id_index (found env w).items ≡ true
      → (delete_item owner_id item_id v deleted_by env w).0 ≡ ok resp
      → (get_item owner_id item_id env (delete_item owner_id item_id v deleted_by env w).1).0
        ≡ app_error "ITEM_NOT_FOUND" (field "item_id" (str item_id) end)
  unfolding get_item
  get_item-delete_item resp quiet unique h =
      let (here, left) = delete_item_cas resp h in
      let (_, w') = delete_item owner_id item_id v deleted_by env w in
      ground (
        arith,
        here,
        left,
        quiet w'.tick w'.committed,
        find-identified-retire owner_id item_id v
            (retired deleted_by (env.now (suc w.tick)) (env.now (suc (suc w.tick))))
            (found env w).items (λ i. refl) (λ i. refl),
      )
