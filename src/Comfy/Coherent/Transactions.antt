-- ===== src/Comfy/Coherent/Transactions.antt =====
-- The guarantee for single transactions of app/services/comfy_service.py, from the database that each
-- finds to the one that it leaves.
use comfy_shell_v.Prelude.{
  suc, String, false, ◌≡◌, refl, arith, Option, some, List, [], ◌∷◌, ◌++◌, eq_iff, find,
  update_where, Option-cases, Bool-cases, inl, inr, sym, ◌⊎◌,
}
use mathlib.Core.List.{append-nil}
use comfy_shell_v.Prelude.Json.{Fields, fields, py_str}
use comfy_shell_v.Db.{Db, Host, Instance, ModelRoot, CommandKind}
use comfy_shell_v.Uow.{Env, World, CommandResult, ok}
use comfy_shell_v.Uow.Rules.{is_ok, found, opened}
use comfy_shell_v.Comfy.Config.{Config, default_model_root_path, resolved_data_root}
use comfy_shell_v.Comfy.Repository
use comfy_shell_v.Comfy.Repository.{instance_with_id, host_with_id, linked_ids, model_root_row}
use comfy_shell_v.Comfy.Repository.Rows.{relinked, test_of_find}
use comfy_shell_v.Comfy.Hosts.{
  ensure_default_host, create_host, create_model_root, ModelRootCreateRequest, HostCreateRequest,
}
use comfy_shell_v.Comfy.Operations.{mark_launched, write_install, some_text}
use comfy_shell_v.Comfy.Client.{or_text}
use comfy_shell_v.Prelude.Dict.{get}
use comfy_shell_v.Comfy.Instances.{Context, instance_context, check_roots}
use comfy_shell_v.Comfy.Launch.{write_launch_config, LaunchConfigUpdate, sent_or}
use comfy_shell_v.Comfy.Runs.{record_run, finish_run, fail_run, get_run}
use comfy_shell_v.Comfy.Coherent.{PrimaryIn, Placed, Guarantee, Guarantee-refl}
use comfy_shell_v.Comfy.Coherent.Writes.{Guarantee-add_root, Guarantee-change, Guarantee-relink}
use comfy_shell_v.Comfy.Coherent.Readers.{
  check_roots-world, check_roots-RootsOf, present_roots-world,
}

abbrev pub SameRows : Db → Db → Type 0
SameRows db after =
    (after.instances ≡ db.instances)
    × (after.links ≡ db.links)
    × (after.model_roots ≡ db.model_roots)

pub same-Guarantee : (db after : Db) → SameRows db after → Guarantee db after
same-Guarantee db after (ei, el, er) =
    Guarantee-add_root db after [] ei el (rw er (sym (append-nil _)))

pub eq-Guarantee : (db after : Db) → after ≡ db → Guarantee db after
eq-Guarantee db after e = rw e (Guarantee-refl db)

pub instance_context-committed :
    (id : String) (env : Env) (w : World) → (instance_context id env w).1.committed ≡ found env w
unfolding instance_context
instance_context-committed id env w =
    elim (Option-cases (find (instance_with_id id) (found env w).instances)) [
      | inl absent ↦ ground arith
      | inr (row, here) ↦ ground (
        arith,
        here,
        present_roots-world (env.unordered (suc w.tick) (linked_ids row.id (found env w).links)) env
            (record (opened env w) { tick = suc (suc w.tick) }),
      )
    ]

-- The row and the host that the context holds
pub instance_context-Placed :
    (id : String) (env : Env) (w : World) (ctx : Context)
    → (instance_context id env w).0 ≡ ok ctx
    → Placed (found env w) ctx.row.id ctx.host.id
unfolding instance_context
instance_context-Placed id env w ctx h =
    elim (Option-cases (find (instance_with_id id) (found env w).instances)) [
      | inl absent ↦ absurd (ground arith)
      | inr (row, here) ↦
          elim (Option-cases (find (host_with_id row.host_id) (found env w).hosts)) [
            | inl absent ↦ absurd (ground arith)
            | inr (host, there) ↦
                let same_row : ctx.row ≡ row = ground (arith, here, there) in
                let same_host : ctx.host ≡ host = ground (arith, here, there) in
                (
                  row,
                  ground (
                    arith,
                    same_row,
                    here,
                    eq_iff row.id id,
                    test_of_find (instance_with_id id) (found env w).instances row here,
                  ),
                  ground (
                    arith,
                    same_host,
                    eq_iff host.id row.host_id,
                    test_of_find (host_with_id row.host_id) (found env w).hosts host there,
                  ),
                )
          ]
    ]

pub record_run-SameRows :
    (host_id : String) (instance_id : Option String) (kind : CommandKind) (env : Env) (w : World)
    → SameRows (found env w) (record_run host_id instance_id kind env w).1.committed
unfolding record_run
record_run-SameRows host_id instance_id kind env w = ground arith

pub finish_run-SameRows :
    (run_id : String) (payload : Fields) (result : CommandResult) (env : Env) (w : World)
    → SameRows (found env w) (finish_run run_id payload result env w).1.committed
unfolding finish_run
finish_run-SameRows run_id payload result env w = ground arith

pub fail_run-SameRows {ℓ} :
    (A : Type ℓ) (run_id code : String) (details : Fields) (env : Env) (w : World)
    → SameRows (found env w) (fail_run {A = A} run_id code details env w).1.committed
unfolding fail_run
fail_run-SameRows A run_id code details env w = ground arith

pub get_run-committed :
    (run_id : String) (env : Env) (w : World) → (get_run run_id env w).1.committed ≡ found env w
unfolding get_run
get_run-committed run_id env w = ground arith

module _ (host : Host) (row : Instance) (req : LaunchConfigUpdate) (ids : List String)
    (primary : Option String) (env : Env) (w : World) where
  abbrev pub written : World
  written = (write_launch_config host row req ids primary env w).1

  abbrev relaunch : Instance → Instance
  relaunch i = record i {
    comfy_port = sent_or req.comfy_port row.comfy_port;
    gpu_ids = sent_or req.gpu_ids row.gpu_ids;
    primary_model_root_id = primary;
    updated_at = env.now (suc w.tick);
  }

  write_launch_config-failed :
      is_ok (write_launch_config host row req ids primary env w).0 ≡ false
      → written.committed ≡ found env w
  unfolding write_launch_config
  write_launch_config-failed h = ground (arith, check_roots-world host.id ids env (opened env w))

  write_launch_config-ok :
      (write_launch_config host row req ids primary env w).0 ≡ ok tt
      → ((check_roots host.id ids env (opened env w)).0 ≡ ok tt)
        × (written.committed.instances
            ≡ update_where (instance_with_id row.id) relaunch (found env w).instances)
        × (written.committed.links ≡ relinked row.id ids (found env w).links)
        × (written.committed.model_roots ≡ (found env w).model_roots)
  unfolding write_launch_config
  write_launch_config-ok h = ground (arith, check_roots-world host.id ids env (opened env w))

  pub write_launch_config-Guarantee :
      Placed (found env w) row.id host.id
      → PrimaryIn primary ids
      → Guarantee (found env w) written.committed
  write_launch_config-Guarantee here chosen =
      elim (Bool-cases (is_ok (write_launch_config host row req ids primary env w).0)) [
        | inl done ↦
            let (checked, ei, el, er) = write_launch_config-ok (ground arith) in
            Guarantee-relink (found env w) written.committed row.id relaunch (λ i. refl) (λ i. refl)
              ei host.id ids primary here
              (check_roots-RootsOf host.id ids env (opened env w) checked) chosen (λ i. refl) el er
        | inr failed ↦
            eq-Guarantee (found env w) written.committed (write_launch_config-failed failed)
      ]

-- The three rows of a table are the same, or model roots were added.
abbrev pub AddsRoot : Db → ModelRoot → Db → Type 0
AddsRoot db r after =
    SameRows db after
    ⊎ (after.instances ≡ db.instances)
      × (after.links ≡ db.links)
      × (after.model_roots ≡ db.model_roots ++ r ∷ [])

pub Guarantee-AddsRoot : (db after : Db) (r : ModelRoot) → AddsRoot db r after → Guarantee db after
Guarantee-AddsRoot db after r (inl same) = same-Guarantee db after same
Guarantee-AddsRoot db after r (inr (ei, el, er)) = Guarantee-add_root db after (r ∷ []) ei el er

pub create_model_root-AddsRoot :
    (req : ModelRootCreateRequest) (env : Env) (w : World)
    → AddsRoot
        (found env w)
        (model_root_row req.host_id req.label req.path
          (env.uuid (suc w.tick))
          (env.now (suc (suc w.tick)))
          (env.now (suc (suc (suc w.tick)))))
        (create_model_root req env w).1.committed
unfolding create_model_root
create_model_root-AddsRoot req env w = ground arith

pub ensure_default_host-AddsRoot :
    (cfg : Config) (env : Env) (w : World)
    → (r : ModelRoot) × AddsRoot (found env w) r (ensure_default_host cfg env w).1.committed
unfolding ensure_default_host
ensure_default_host-AddsRoot cfg env w = (
  model_root_row (env.uuid (suc w.tick)) "Shared Models"
      (default_model_root_path cfg (resolved_data_root cfg cfg.settings.data_root))
      (env.uuid (suc (suc (suc (suc w.tick))))) (env.now (suc (suc (suc (suc (suc w.tick))))))
      (env.now (suc (suc (suc (suc (suc (suc w.tick))))))),
  ground arith,
)

pub create_host-SameRows :
    (cfg : Config) (req : HostCreateRequest) (env : Env) (w : World)
    → SameRows (found env w) (create_host cfg req env w).1.committed
      ⊎ ((create_host cfg req env w).1.committed ≡ w.committed)
unfolding create_host
create_host-SameRows cfg req env w = ground arith

pub mark_launched-Guarantee :
    (id : String) (env : Env) (w : World)
    → Guarantee (found env w) (mark_launched id env w).1.committed
unfolding Repository.mark_launched
mark_launched-Guarantee id env w =
    Guarantee-change (found env w) (mark_launched id env w).1.committed id
      (λ i. record i {
        last_launched_at = some (env.now (suc w.tick));
        updated_at = env.now (suc w.tick);
      })
      (λ i. refl) (λ i. refl) refl (λ i. refl) refl refl

pub write_install-Guarantee :
    (id comfy_ref : String) (payload : Fields) (env : Env) (w : World)
    → Guarantee (found env w) (write_install id comfy_ref payload env w).1.committed
unfolding Repository.update_install_result
write_install-Guarantee id comfy_ref payload env w =
    Guarantee-change (found env w) (write_install id comfy_ref payload env w).1.committed id
      (λ i. record i {
        comfy_ref = comfy_ref;
        resolved_commit =
            some_text (py_str env.repr (or_text (get (fields payload) "resolved_commit") ""));
        updated_at = env.now (suc w.tick);
      })
      (λ i. refl) (λ i. refl) refl (λ i. refl) refl refl
