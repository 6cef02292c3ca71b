-- ===== src/Comfy/Coherent/Creation.antt =====
-- The guarantee for `create_instance` of app/services/comfy_service.py.
use comfy_shell_v.Prelude.{
  String, true, false, ◌≡◌, refl, arith, Option, List, [], ◌∷◌, ◌++◌, any, inl, inr,
}
use comfy_shell_v.Db.{Db, Host, Instance}
use comfy_shell_v.Uow.{Env, World, ok}
use comfy_shell_v.Uow.Rules.{is_ok, found, opened, Result-cases}
use comfy_shell_v.Comfy.Config.{Config}
use comfy_shell_v.Comfy.Repository.{NewInstance, instance_with_id}
use comfy_shell_v.Comfy.Repository.Rows.{relinked}
use comfy_shell_v.Comfy.Instances.{
  check_roots, check_primary, InstanceCreateRequest, pick_roots, plan_instance, store_instance,
  create_instance, chosen_roots, primary_or_first,
}
use comfy_shell_v.Comfy.Coherent.{Guarantee, Guarantee-refl}
use comfy_shell_v.Comfy.Coherent.Writes.{Guarantee-new}
use comfy_shell_v.Comfy.Coherent.Readers.{
  check_roots-world, check_roots-RootsOf, check_primary-world, check_primary-PrimaryIn,
}

chosen_roots-pure :
    (host_id : String) (ids : List String) (env : Env) (w : World)
    → (l : List String) × (chosen_roots host_id ids env w ≡ (ok l, w))
unfolding chosen_roots
chosen_roots-pure host_id [] env w = (_, refl)
chosen_roots-pure host_id (id ∷ ids) env w = (id ∷ ids, refl)

module _ (req : InstanceCreateRequest) (env : Env) (w : World) where
  pick_roots-world : (pick_roots req env w).1 ≡ w
  unfolding pick_roots
  pick_roots-world =
      let (l, e) = chosen_roots-pure req.host_id req.model_root_ids env w in
      ground (
        arith,
        e,
        check_primary-world (primary_or_first req.primary_model_root_id l) l env w,
        check_roots-world req.host_id l env w,
      )

  pick_roots-checks :
      (host : Host) (ids : List String) (primary : Option String)
      → (pick_roots req env w).0 ≡ ok (host, ids, primary)
      → ((check_roots req.host_id ids env w).0 ≡ ok tt)
        × ((check_primary primary ids env w).0 ≡ ok tt)
  unfolding pick_roots
  pick_roots-checks host ids primary h =
      let (l, e) = chosen_roots-pure req.host_id req.model_root_ids env w in
      ground (
        arith,
        e,
        check_primary-world (primary_or_first req.primary_model_root_id l) l env w,
        check_roots-world req.host_id l env w,
      )

  module _ (cfg : Config) where
    plan_instance-world : (plan_instance cfg req env w).1 ≡ w
    unfolding plan_instance
    plan_instance-world = ground (arith, pick_roots-world)

    plan_instance-picks :
        (host : Host) (ids : List String) (columns : NewInstance)
        → (plan_instance cfg req env w).0 ≡ ok (host, ids, columns)
        → ((pick_roots req env w).0 ≡ ok (host, ids, columns.primary_model_root_id))
          × (columns.host_id ≡ req.host_id)
    unfolding plan_instance
    plan_instance-picks host ids columns h = ground arith

module _ (columns : NewInstance) (ids : List String) (env : Env) (w : World) where
  abbrev stored : World
  stored = (store_instance columns ids env w).1

  store_instance-ok :
      (new : Instance)
      → (store_instance columns ids env w).0 ≡ ok new
      → (any (instance_with_id new.id) w.session.instances ≡ false)
        × (stored.session.instances ≡ w.session.instances ++ new ∷ [])
        × (stored.session.links ≡ relinked new.id ids w.session.links)
        × (stored.session.model_roots ≡ w.session.model_roots)
        × (stored.committed ≡ w.committed)
        × (new.host_id ≡ columns.host_id)
        × (new.primary_model_root_id ≡ columns.primary_model_root_id)
  unfolding store_instance
  store_instance-ok new h = ground arith

  store_instance-committed : stored.committed ≡ w.committed
  unfolding store_instance
  store_instance-committed = ground arith

module _ (cfg : Config) (req : InstanceCreateRequest) (env : Env) (w : World) where
  abbrev created : Db
  created = (create_instance cfg req env w).1.committed

  -- A creation that has planned and stored commits the stored session, and no other does.
  unplanned : is_ok (plan_instance cfg req env (opened env w)).0 ≡ false → created ≡ found env w
  unfolding create_instance
  unplanned h = ground (arith, plan_instance-world req env (opened env w) cfg)

  module _ (host : Host) (ids : List String) (columns : NewInstance)
      (planned : (plan_instance cfg req env (opened env w)).0 ≡ ok (host, ids, columns)) where
    unstored :
        is_ok (store_instance columns ids env (opened env w)).0 ≡ false → created ≡ found env w
    unfolding create_instance
    unstored h = ground (
      arith,
      planned,
      plan_instance-world req env (opened env w) cfg,
      store_instance-committed columns ids env (opened env w),
    )

    stored_commits :
        is_ok (store_instance columns ids env (opened env w)).0 ≡ true
        → created ≡ (store_instance columns ids env (opened env w)).1.session
    unfolding create_instance
    stored_commits h = ground (arith, planned, plan_instance-world req env (opened env w) cfg)

    stored-Guarantee :
        (new : Instance)
        → (store_instance columns ids env (opened env w)).0 ≡ ok new
        → Guarantee (found env w) created
    stored-Guarantee new h =
        let (free, ei, el, er, same, host_id, primary) =
          store_instance-ok columns ids env (opened env w) new h in
        let (picked, same_host) =
          plan_instance-picks req env (opened env w) cfg host ids columns planned in
        let (roots, chosen) =
          pick_roots-checks req env (opened env w) host ids columns.primary_model_root_id picked in
        rw (stored_commits (rw h)) (
          Guarantee-new (found env w) (store_instance columns ids env (opened env w)).1.session new
            ids free ei el er
            (rw (host_id, same_host) (check_roots-RootsOf req.host_id ids env (opened env w) roots))
            (rw primary (
              check_primary-PrimaryIn columns.primary_model_root_id ids env (opened env w) chosen)))

  pub create_instance-Guarantee : Guarantee (found env w) created
  create_instance-Guarantee = elim (Result-cases (plan_instance cfg req env (opened env w)).0) [
    | inl ((host, ids, columns), planned) ↦
        elim (Result-cases (store_instance columns ids env (opened env w)).0) [
          | inl (new, kept) ↦ stored-Guarantee host ids columns planned new kept
          | inr failed ↦
              rw (unstored host ids columns planned failed) (Guarantee-refl (found env w))
        ]
    | inr failed ↦ rw (unplanned failed) (Guarantee-refl (found env w))
  ]
