-- ===== src/Comfy/Runs/Closing.antt =====
-- How `_run_recorded` of app/services/comfy_service.py leaves the run that it was given.
use comfy_shell_v.Prelude.{
  suc, String, ◌≡◌, refl, arith, some, List, [], ◌∷◌, find, update_where, if◌then◌else◌, inl, inr,
  ◌⊎◌, subst, sym, ◌∙◌,
}
use comfy_shell_v.Prelude.Json.{Fields, truthy, lookup}
use comfy_shell_v.Db.{CommandRun, Phase, running, completed, failed}
use comfy_shell_v.Uow.{Env, World, Result, CommandResult, ok, app_error, integrity_error, crash}
use comfy_shell_v.Uow.Rules.{found, IsQuiet}
use comfy_shell_v.Comfy.Config.{Config}
use comfy_shell_v.Comfy.Client
use comfy_shell_v.Comfy.Coherent.Steps.{client-committed}
use comfy_shell_v.Comfy.Repository.Runs.{run_with_id, ended}
use comfy_shell_v.Comfy.Runs.{run_recorded, finish_run, fail_run, ending_of, failed_ending}

-- The phase that belongs to the way the call ended.
abbrev pub phase_after : Result (Fields × CommandResult) → Phase
phase_after (ok (payload, result)) = if truthy (lookup payload "ok") then completed else failed
phase_after (app_error code details) = failed
phase_after (integrity_error orig) = running
phase_after crash = running

-- An update of the row with the id changes that row and no other.
pub find-run-update :
    (id : String) (change : CommandRun → CommandRun) (rows : List CommandRun) (r : CommandRun)
    → ((r : CommandRun) → (change r).id ≡ r.id)
    → find (run_with_id id) rows ≡ some r
    → find (run_with_id id) (update_where (run_with_id id) change rows) ≡ some (change r)
find-run-update id change [] r same h = absurd (ground arith)
find-run-update id change (x ∷ rows) r same h =
    ground (arith, same x, find-run-update id change rows r same)

module _ (run_id : String) (env : Env) (w : World) (r : CommandRun)
    (there : find (run_with_id run_id) (found env w).command_runs ≡ some r) where
  finish_run-committed :
      (payload : Fields) (result : CommandResult)
      → let (answer, w') = finish_run run_id payload result env w in
        (answer ≡ ok tt)
        × (find (run_with_id run_id) w'.committed.command_runs
            ≡ some (ended (ending_of env.repr payload result) (env.now (suc w.tick)) r))
  unfolding finish_run
  finish_run-committed payload result = ground (
    arith,
    find-run-update run_id (ended (ending_of env.repr payload result) (env.now (suc w.tick)))
        (found env w).command_runs r (λ x. refl) there,
  )

  fail_run-committed {ℓ} :
      {A : Type ℓ} (code : String) (details : Fields)
      → let (answer, w') = fail_run {A = A} run_id code details env w in
        (answer ≡ app_error code details)
        × (find (run_with_id run_id) w'.committed.command_runs
            ≡ some (ended (failed_ending env.repr code details) (env.now (suc w.tick)) r))
  unfolding fail_run
  fail_run-committed code details = ground (
    arith,
    find-run-update run_id (ended (failed_ending env.repr code details) (env.now (suc w.tick)))
        (found env w).command_runs r (λ x. refl) there,
  )

pub answers {ℓ} :
    {A : Type ℓ} (r : Result A)
    → ((a : A) × (r ≡ ok a))
      ⊎ ((code : String) × (details : Fields) × (r ≡ app_error code details))
      ⊎ ((orig : String) × (r ≡ integrity_error orig))
      ⊎ (r ≡ crash)
answers (ok a) = inl (a, refl)
answers (app_error code details) = inr (inl (code, details, refl))
answers (integrity_error orig) = inr (inr (inl (orig, refl)))
answers crash = inr (inr (inr refl))

-- When no other request commits and the run is in the table and running, it is still there after the
-- call, of the same kind and instance, and its phase is completed or failed by the answer's "ok" on
-- a return, failed on an AppError, and running on any other exception.
pub run_recorded-phase :
    (cfg : Config) (run_id : String) (args : List String) (env : Env) (w : World) (r : CommandRun)
    → IsQuiet env
    → find (run_with_id run_id) w.committed.command_runs ≡ some r
    → r.phase ≡ running
    → let (result, w') = run_recorded cfg run_id args env w in
      (r' : CommandRun) × (find (run_with_id run_id) w'.committed.command_runs ≡ some r')
      × (r'.phase ≡ phase_after result)
      × (r'.kind ≡ r.kind)
      × (r'.instance_id ≡ r.instance_id)
unfolding run_recorded
run_recorded-phase cfg run_id args env w r quiet there still =
    let c = Client.run cfg args env w in
    let same = client-committed cfg args env w in
    let here =
      subst (λ db. find (run_with_id run_id) db.command_runs ≡ some r)
        (sym (quiet c.1.tick c.1.committed ∙ same)) there in
    elim (answers c.0) [
      | inl ((payload, result), e) ↦
          let done = finish_run-committed run_id env c.1 r here payload result in
          (
            ended (ending_of env.repr payload result) (env.now (suc c.1.tick)) r,
            ground (arith, done),
            ground (arith, done),
            ground (arith, done),
            ground (arith, done),
          )
      | inr (inl (code, details, e)) ↦
          let done =
            fail_run-committed run_id env c.1 r here {A = Fields × CommandResult} code details in
          (
            ended (failed_ending env.repr code details) (env.now (suc c.1.tick)) r,
            ground (arith, done),
            ground (arith, done),
            ground (arith, done),
            ground (arith, done),
          )
      | inr (inr (inl (orig, e))) ↦
          (r, ground (arith, here), ground arith, ground arith, ground arith)
      | inr (inr (inr e)) ↦ (r, ground (arith, here), ground arith, ground arith, ground arith)
    ]
