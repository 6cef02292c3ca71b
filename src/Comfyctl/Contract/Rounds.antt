-- ===== src/Comfyctl/Contract/Rounds.antt =====
-- The rounds of the loops of `command_instance_start` and `command_instance_stop` of comfyctl/cli.py.
use comfy_shell_v.Prelude.{
  ℕ, ℤ, zero, suc, ◌+◌, ◌*◌, ◌/◌, ◌≤◌, Bool, true, false, ◌≡◌, ◌≢◌, refl, arith, List, Option, ltb,
  if◌then◌else◌,
}
use comfy_shell_v.Comfyctl.Paths.{InstancePaths}
use comfy_shell_v.Comfyctl.Machine.{
  Platform, Machine, passed, Result, ok, failed, value_error, crash, exhausted, Action, continue,
  sleep, ◌>>◌,
}
use comfy_shell_v.Comfyctl.Processes.{process_alive}
use comfy_shell_v.Comfyctl.Tools.{port_open}
use comfy_shell_v.Comfyctl.Start.{
  StartArgs, exited_early, after_try, after_poll, started, await_port, poll_rounds,
}
use comfy_shell_v.Comfyctl.Stop.{StopArgs, await_end}
use comfy_shell_v.Comfyctl.Contract.Stop.{process_alive_takes_time, await_end-Finished}
use comfy_shell_v.Comfyctl.Contract.Start.{
  exited_early_takes_time, port_open_takes_time, await_port-Finished,
}
use comfy_shell_v.Comfyctl.Contract.{Finished}
use comfy_shell_v.Prelude.Json.{Fields}

module _ {A : Type 0} {B : Type 0} where
  continue-same :
      (r : Result A) (f g : A → Action B) (env : Platform) (m : Machine)
      → ((a : A) → f a env m ≡ g a env m)
      → continue r f env m ≡ continue r g env m
  continue-same (ok a) f g env m h = h a
  continue-same (failed e) f g env m h = refl
  continue-same (value_error text) f g env m h = refl
  continue-same crash f g env m h = refl
  continue-same exhausted f g env m h = refl

if-same :
    {A : Type 0} (b : Bool) (p q p' q' : Action A) (env : Platform) (m : Machine)
    → (b ≡ true → p env m ≡ p' env m)
    → (b ≡ false → q env m ≡ q' env m)
    → (if b then p else q) env m ≡ (if b then p' else q') env m
if-same true p q p' q' env m h k = h refl
if-same false p q p' q' env m h k = k refl

module _ (args : StopArgs) (paths : InstancePaths) (pid : ℤ) where
  await_end-rounds :
      (fuel more deadline : ℕ) (env : Platform) (m : Machine)
      → fuel ≤ more
      → deadline ≤ m.now + 200 * fuel
      → await_end (suc more) args paths pid deadline env m
        ≡ await_end (suc fuel) args paths pid deadline env m
  unfolding await_end
  await_end-rounds zero more deadline env m _ h =
      if-same (ltb m.now deadline) _ _ _ _ env m (λ t. absurd (ground arith)) (λ t. refl)
  await_end-rounds (suc fuel) zero deadline env m less h = absurd (omega arith)
  await_end-rounds (suc fuel) (suc more) deadline env m less h =
      let m1 = (process_alive pid env m).1 in
      if-same (ltb m.now deadline) _ _ _ _ env m
        (λ t. continue-same (process_alive pid env m).0 _ _ env m1 λ is_alive.
          if-same is_alive _ _ _ _ env m1
            (λ _.
              await_end-rounds fuel more deadline env (sleep 200 env m1).1 (omega arith)
                (omega (arith, process_alive_takes_time pid env m)))
            (λ _. refl))
        (λ t. refl)

module _ (args : StartArgs) (paths : InstancePaths) (pid : ℤ) where
  after_poll-same :
      (again again' : Action ℕ) (code : Option ℤ) (env : Platform) (m : Machine)
      → ((m' : Machine) → m.now + 200 ≤ m'.now → again env m' ≡ again' env m')
      → after_poll args paths pid again code env m ≡ after_poll args paths pid again' code env m
  after_poll-same again again' code env m h =
      let m1 = (exited_early paths code env m).1 in
      let m2 = (port_open args.host args.port env m1).1 in
      continue-same (exited_early paths code env m).0 _ _ env m1 λ _.
        continue-same (port_open args.host args.port env m1).0 (after_try args paths pid again)
          (after_try args paths pid again') env m2
          λ is_open.
            if-same is_open (started args paths pid) (sleep 200 >> again) (started args paths pid)
              (sleep 200 >> again') env m2 (λ _. refl)
              (λ _. h (sleep 200 env m2).1 (
                omega (
                  arith,
                  exited_early_takes_time args paths pid code env m,
                  port_open_takes_time args paths pid env m1,
                )))

  await_port-rounds :
      (fuel more deadline : ℕ) (env : Platform) (m : Machine)
      → fuel ≤ more
      → deadline ≤ m.now + 200 * fuel
      → await_port (suc more) args paths pid deadline env m
        ≡ await_port (suc fuel) args paths pid deadline env m
  unfolding await_port
  await_port-rounds zero more deadline env m _ h =
      if-same (ltb m.now deadline) _ _ _ _ env m (λ t. absurd (ground arith)) (λ t. refl)
  await_port-rounds (suc fuel) zero deadline env m less h = absurd (omega arith)
  await_port-rounds (suc fuel) (suc more) deadline env m less h =
      if-same (ltb m.now deadline) _ _ _ _ env m
        (λ t.
          after_poll-same (await_port (suc more) args paths pid deadline)
            (await_port (suc fuel) args paths pid deadline) (env.poll m.tick pid) env (passed env m)
            λ m' later.
              await_port-rounds fuel more deadline env m' (omega arith) (omega (arith, later)))
        (λ t. refl)

not_exhausted :
    (r : Result ℕ) (before after : List Fields) → Finished r before after → r ≢ exhausted
not_exhausted (ok n) before after h = λ e. cc
not_exhausted (failed f) before after h = λ e. cc
not_exhausted (value_error text) before after h = λ e. cc
not_exhausted crash before after h = λ e. cc
not_exhausted exhausted before after h = λ e. h

-- The waiting loops of start and stop, with as many rounds as they are given here, reach
-- their end before the rounds are used up, and with any larger number of rounds they do just
-- the same.
pub poll_rounds_lem :
    (start_args : StartArgs) (stop_args : StopArgs) (paths : InstancePaths) (pid : ℤ)
    (env : Platform) (m : Machine)
    → let start_until = m.now + start_args.startup_timeout in
      let stop_until = m.now + stop_args.timeout in
      let start_rounds = poll_rounds start_args.startup_timeout in
      let stop_rounds = poll_rounds stop_args.timeout in
      ((await_port start_rounds start_args paths pid start_until env m).0 ≢ exhausted)
      × ((more : ℕ)
          → start_rounds ≤ more
          → await_port more start_args paths pid start_until env m
            ≡ await_port start_rounds start_args paths pid start_until env m)
      × ((await_end stop_rounds stop_args paths pid stop_until env m).0 ≢ exhausted)
      × ((more : ℕ)
          → stop_rounds ≤ more
          → await_end more stop_args paths pid stop_until env m
            ≡ await_end stop_rounds stop_args paths pid stop_until env m)
poll_rounds_lem start_args stop_args paths pid env m = (
  not_exhausted _ _ _ (
      await_port-Finished start_args paths pid (suc (start_args.startup_timeout / 200)) _ env m
        (omega arith)),
  port_rounds,
  not_exhausted _ _ _ (
      await_end-Finished (suc (stop_args.timeout / 200)) stop_args paths pid _ env m (omega arith)),
  end_rounds,
)
  where
    port_rounds :
        (more : ℕ)
        → poll_rounds start_args.startup_timeout ≤ more
        → await_port more start_args paths pid (m.now + start_args.startup_timeout) env m
          ≡ await_port
              (poll_rounds start_args.startup_timeout)
              start_args
              paths
              pid
              (m.now + start_args.startup_timeout)
              env
              m
    port_rounds zero h = absurd (omega arith)
    port_rounds (suc more) h =
        await_port-rounds start_args paths pid (suc (start_args.startup_timeout / 200)) more _ env m
          (omega arith) (omega arith)

    end_rounds :
        (more : ℕ)
        → poll_rounds stop_args.timeout ≤ more
        → await_end more stop_args paths pid (m.now + stop_args.timeout) env m
          ≡ await_end
              (poll_rounds stop_args.timeout)
              stop_args
              paths
              pid
              (m.now + stop_args.timeout)
              env
              m
    end_rounds zero h = absurd (omega arith)
    end_rounds (suc more) h =
        await_end-rounds stop_args paths pid (suc (stop_args.timeout / 200)) more _ env m
          (omega arith) (omega arith)
