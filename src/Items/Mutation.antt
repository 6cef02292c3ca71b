-- ===== src/Items/Mutation.antt =====
-- What `update_item` of app/services/item_service.py does to the table of items.
use comfy_shell_v.Prelude.{
  ℕ, String, true, ◌≡◌, refl, ◌∙◌, ap, arith, none, some, List, ◌∷◌, ◌++◌, Option-cases, inl, inr,
  find, update_where, suc, eq_iff,
}
use comfy_shell_v.Db.{Item}
use comfy_shell_v.Uow.{Env, World, ok}
use comfy_shell_v.Uow.Rules.{found}
use comfy_shell_v.Items.{expected, revised, id_index}
use comfy_shell_v.Items.Index.{find-expected_split}
use comfy_shell_v.Items.Service.{ItemUpdateRequest, ItemResponse, to_response, update_item}

-- A row that an update may change, and what the update makes of it at a time
pub record Revised (owner_id item_id : String) (req : ItemUpdateRequest) (now : ℕ) (i j : Item)
    : Type 0 where
  pub owned : i.owner_id ≡ owner_id
  pub identified : i.id ≡ item_id
  pub not_deleted : i.deleted_at ≡ none
  pub at_version : i.version ≡ req.expected_version
  pub next_version : j.version ≡ suc req.expected_version
  pub named : j.name ≡ elim req.name [ none ↦ i.name | some name ↦ name ]
  pub described :
      j.description ≡ elim req.description [ none ↦ i.description | some text ↦ some text ]
  pub in_status : j.status ≡ elim req.status [ none ↦ i.status | some status ↦ status ]
  pub updated : j.updated_at ≡ now
  pub same_key : (j.id ≡ item_id) × (j.owner_id ≡ owner_id)
  pub same_times : (j.created_at ≡ i.created_at) × (j.deleted_at ≡ none)
  pub same_deleted_by : j.deleted_by ≡ i.deleted_by

expected-Revised :
    (owner_id item_id : String) (req : ItemUpdateRequest) (now : ℕ) (i : Item)
    → expected owner_id item_id req.expected_version i ≡ true
    → Revised owner_id item_id req now i (revised req.name req.description req.status now i)
expected-Revised owner_id item_id req now i fits =
    let owned : i.owner_id ≡ owner_id = ground (arith, eq_iff i.owner_id owner_id) in
    let identified : i.id ≡ item_id = ground (arith, eq_iff i.id item_id) in
    let active : i.deleted_at ≡ none = elim (Option-cases i.deleted_at) [
      | inl none_there ↦ none_there
      | inr (t, there) ↦ absurd (ground arith)
    ] in
    let at_version : i.version ≡ req.expected_version = ground arith in
    record {
      owned = owned;
      identified = identified;
      not_deleted = active;
      at_version = at_version;
      next_version = ground arith;
      named = elim (Option-cases req.name) [ inl h ↦ rw h refl | inr (name, h) ↦ rw h refl ];
      described = refl;
      in_status = elim (Option-cases req.status) [
        | inl h ↦ rw h refl
        | inr (status, h) ↦ rw h refl
      ];
      updated = refl;
      same_key = (identified, owned);
      same_times = (refl, active);
      same_deleted_by = refl;
    }

module _ (env : Env) (w : World) (owner_id : String) where
  abbrev revision : ItemUpdateRequest → Item → Item
  revision req = revised req.name req.description req.status (env.now (suc w.tick))

  -- An update that returns found a row for its statement, and has run the statement.
  pub update_item_finds :
      (item_id : String) (req : ItemUpdateRequest) (resp : ItemResponse)
      → (update_item owner_id item_id req env w).0 ≡ ok resp
      → (i : Item) × (find (expected owner_id item_id req.expected_version) (found env w).items
          ≡ some i)
        × (resp ≡ to_response env.isoformat (revision req i))
        × ((update_item owner_id item_id req env w).1.committed ≡ record (found env w) {
          items =
              update_where
                (expected owner_id item_id req.expected_version)
                (revision req)
                (found env w).items;
        })
  unfolding update_item
  update_item_finds item_id req resp h =
      elim (Option-cases
        (find (expected owner_id item_id req.expected_version) (found env w).items)) [
          | inl absent ↦ absurd (ground arith)
          | inr (i, e) ↦ (i, e, ground arith, ground arith)
        ]

  -- Where ids are unique, an update of an item that returns found, among the rows, one row of
  -- the owner and of the id that is not deleted and is at the expected version; it has
  -- committed the rows with that one, in its place, replaced by a row of the same id, owner
  -- and creation, not deleted, whose version is the next one, whose name, description and
  -- status are those of the request where it has them and else those of the row, and whose
  -- time of update is the time of the call; nothing else has changed, and the answer shows
  -- the new row.
  pub update_item_cas :
      (item_id : String) (req : ItemUpdateRequest) (resp : ItemResponse)
      → id_index (found env w).items ≡ true
      → (update_item owner_id item_id req env w).0 ≡ ok resp
      → (before : List Item) × (after : List Item) × (i : Item) × (j : Item) × ((found env w).items
          ≡ before ++ i ∷ after)
        × Revised owner_id item_id req (env.now (suc w.tick)) i j
        × ((update_item owner_id item_id req env w).1.committed
            ≡ record (found env w) { items = before ++ j ∷ after })
        × (resp ≡ to_response env.isoformat j)
  update_item_cas item_id req resp unique h =
      let (i, here, answer, left) = update_item_finds item_id req resp h in
      let (fits, before, after, split, changed) =
        find-expected_split owner_id item_id req.expected_version (revision req) (found env w).items
          i unique here in
      (
        before,
        after,
        i,
        revision req i,
        split,
        expected-Revised owner_id item_id req (env.now (suc w.tick)) i fits,
        left ∙ ap (λ rows. record (found env w) { items = rows }) changed,
        answer,
      )
