-- ===== src/Comfy/Coherent/Writes.antt =====
-- The guarantee for the writes of app/repositories/comfy_repository.py.
use comfy_shell_v.Prelude.{
  String, true, false, ◌≡◌, refl, ap, arith, Option, some, List, [], ◌∷◌, ◌++◌, ◌==◌, eq_iff, find,
  any, update_where, if◌then◌else◌, Bool-cases, Option-cases, inl, inr, ◌⊎◌,
}
use comfy_shell_v.Db.{Db, Instance, ModelRoot}
use comfy_shell_v.Comfy.Repository.{instance_with_id, root_with_id, linked_ids}
use comfy_shell_v.Comfy.Repository.Rows.{
  find-append, find-append_none, find-none_of_any, find-update_where, test_of_find, relinked,
  linked_ids-relinked, changed,
}
use comfy_shell_v.Comfy.Coherent.{RootsOf, PrimaryIn, RootsFit, Placed, Guarantee}

-- More model roots, and the same instances and links.
pub Guarantee-add_root :
    (db after : Db) (roots : List ModelRoot)
    → after.instances ≡ db.instances
    → after.links ≡ db.links
    → after.model_roots ≡ db.model_roots ++ roots
    → Guarantee db after
Guarantee-add_root db after roots ei el er = record {
  coherent = λ h. record {
    at = λ id i e.
        let fit = h.at id i (rw (← ei) e) in
        record {
          roots =
              rw (el, er)
                (λ rid m.
                  let (r, found, host) = fit.roots rid m in
                  (r, find-append (root_with_id rid) db.model_roots roots r found, host));
          primary = rw el fit.primary;
        };
  };
  placed = λ id host_id (i, found, host). (i, rw ei found, host);
}

linked-RootsFit :
    (db after : Db) (id host_id : String) (primary : Option String) (ids : List String)
    (i : Instance)
    → after.model_roots ≡ db.model_roots
    → i.host_id ≡ host_id
    → i.primary_model_root_id ≡ primary
    → linked_ids id after.links ≡ ids
    → RootsOf db host_id ids
    → PrimaryIn primary ids
    → RootsFit after id i
linked-RootsFit db after id host_id primary ids i er host same_primary same_ids fit chosen =
    record { roots = rw (er, host, same_ids) fit; primary = rw (same_primary, same_ids) chosen }

-- Other columns of an instance's row change.
module _ (db after : Db) (jid : String) (change : Instance → Instance)
    (same_id : (i : Instance) → (change i).id ≡ i.id)
    (same_host : (i : Instance) → (change i).host_id ≡ i.host_id)
    (ei : after.instances ≡ update_where (instance_with_id jid) change db.instances) where
  same_test : (id : String) (i : Instance) → instance_with_id id (change i) ≡ instance_with_id id i
  same_test id i = rw (same_id i)

  found_after :
      (id : String)
      → find (instance_with_id id) after.instances
        ≡ changed
            (instance_with_id id)
            (instance_with_id jid)
            change
            (find (instance_with_id id) db.instances)
  found_after id = rw ei (
      find-update_where (instance_with_id id) (instance_with_id jid) change (same_test id)
        db.instances)

  Placed-change : (id host_id : String) → Placed db id host_id → Placed after id host_id
  Placed-change id host_id (i, found, host) = (
    if instance_with_id jid i then change i else i,
    rw (found_after id, found) refl,
    ground (arith, same_host i),
  )

  -- The row before the change
  origin :
      (id : String) (i : Instance)
      → find (instance_with_id id) after.instances ≡ some i
      → (o : Instance) × (find (instance_with_id id) db.instances ≡ some o)
        × (i ≡ (if instance_with_id jid o then change o else o))
  origin id i e = elim (Option-cases (find (instance_with_id id) db.instances)) [
    | inl absent ↦ absurd (ground (arith, found_after id))
    | inr (o, found) ↦ (o, found, ground (arith, found_after id))
  ]

  pub Guarantee-change :
      ((i : Instance) → (change i).primary_model_root_id ≡ i.primary_model_root_id)
      → after.links ≡ db.links
      → after.model_roots ≡ db.model_roots
      → Guarantee db after
  Guarantee-change same_primary el er = record {
    coherent = λ h. record {
      at = λ id i e.
          let (o, found, same) = origin id i e in
          let fit = h.at id o found in
          linked-RootsFit db after id o.host_id o.primary_model_root_id (linked_ids id db.links) i
            er (ground (arith, same, same_host o)) (ground (arith, same, same_primary o)) (rw el)
            fit.roots fit.primary;
    };
    placed = Placed-change;
  }

  -- The launch configuration: the row has a new primary root, and its links are replaced.
  pub Guarantee-relink :
      (host_id : String) (ids : List String) (primary : Option String)
      → Placed db jid host_id
      → RootsOf db host_id ids
      → PrimaryIn primary ids
      → ((i : Instance) → (change i).primary_model_root_id ≡ primary)
      → after.links ≡ relinked jid ids db.links
      → after.model_roots ≡ db.model_roots
      → Guarantee db after
  Guarantee-relink host_id ids primary here fit chosen new_primary el er = record {
    coherent = λ h. record {
      at = λ id i e.
          let (o, found, same) = origin id i e in
          let links : linked_ids id after.links
              ≡ (if jid == id then ids else linked_ids id db.links) =
            rw el (linked_ids-relinked id jid ids db.links) in
          let at_id = test_of_find (instance_with_id id) db.instances o found in
          elim (Bool-cases (jid == id)) [
            | inl relinks ↦
                linked-RootsFit db after id host_id primary ids i er
                  (ground
                    (arith, same, same_host o, (eq_iff jid id).0 relinks, here.1, here.2, found))
                  (ground (
                    arith,
                    same,
                    new_primary o,
                    at_id,
                    eq_iff o.id id,
                    eq_iff o.id jid,
                    eq_iff jid id,
                  ))
                  (rw relinks at links) fit chosen
            | inr other ↦
                let stays : i ≡ o =
                  ground (arith, same, at_id, eq_iff o.id id, eq_iff o.id jid, eq_iff jid id) in
                linked-RootsFit db after id o.host_id o.primary_model_root_id
                  (linked_ids id db.links) i er (ap (λ (x : Instance). x.host_id) stays)
                  (ap (λ (x : Instance). x.primary_model_root_id) stays) (rw other at links)
                  (h.at id o found).roots (h.at id o found).primary
          ];
    };
    placed = Placed-change;
  }

-- A new instance, at an id that was free, with links to roots of its host.
module _ (db after : Db) (new : Instance) (ids : List String)
    (free : any (instance_with_id new.id) db.instances ≡ false)
    (ei : after.instances ≡ db.instances ++ new ∷ [])
    (el : after.links ≡ relinked new.id ids db.links) (er : after.model_roots ≡ db.model_roots)
    (fit : RootsOf db new.host_id ids) (chosen : PrimaryIn new.primary_model_root_id ids) where
  found_new :
      (id : String) (i : Instance)
      → find (instance_with_id id) after.instances ≡ some i
      → (find (instance_with_id id) db.instances ≡ some i) ⊎ ((new.id == id) ≡ true) × (i ≡ new)
  found_new id i e = elim (Option-cases (find (instance_with_id id) db.instances)) [
    | inl absent ↦
        inr (
          ground (arith, ei, find-append_none (instance_with_id id) db.instances (new ∷ []) absent))
    | inr (o, found) ↦
        inl (ground (arith, ei, find-append (instance_with_id id) db.instances (new ∷ []) o found))
  ]

  old_is_other :
      (id : String) (i : Instance)
      → find (instance_with_id id) db.instances ≡ some i
      → (new.id == id) ≡ false
  old_is_other id i found =
      ground (arith, eq_iff new.id id, find-none_of_any (instance_with_id new.id) db.instances free)

  pub Guarantee-new : Guarantee db after
  Guarantee-new = record {
    coherent = λ h. record {
      at = λ id i e.
          let links : linked_ids id after.links
              ≡ (if new.id == id then ids else linked_ids id db.links) =
            rw el (linked_ids-relinked id new.id ids db.links) in
          elim (found_new id i e) [
            | inl old ↦
                linked-RootsFit db after id i.host_id i.primary_model_root_id
                  (linked_ids id db.links) i er refl refl (rw (old_is_other id i old) at links)
                  (h.at id i old).roots (h.at id i old).primary
            | inr (here, same) ↦
                linked-RootsFit db after id new.host_id new.primary_model_root_id ids i er
                  (ap (λ (x : Instance). x.host_id) same)
                  (ap (λ (x : Instance). x.primary_model_root_id) same) (rw here at links) fit
                  chosen
          ];
    };
    placed = λ id host_id (i, found, host).
        (i, rw ei (find-append (instance_with_id id) db.instances (new ∷ []) i found), host);
  }
