-- ===== src/Lifecycle/Failing.antt =====
-- Where the loop of `startup` of app/core/lifecycle.py fails, and with what.
use comfy_shell_v.Prelude.{
  ◌≡◌, refl, sym, ◌∙◌, ap, subst, arith, List, [], ◌∷◌, ◌++◌, map, ◌⊎◌, inl, inr,
}
use mathlib.Core.List.{append-nil}
use comfy_shell_v.Lifecycle.{
  HealthCheckRegistry, Attempt, returned, raised, Error, LifecycleProvider, LifecycleState, Call,
  start_returned, start_failed,
}
use comfy_shell_v.Lifecycle.Providers.{start_loop, start_one, register_check}
use comfy_shell_v.Lifecycle.Progress.{
  Progress, Progress-step, attempts, provider_of, loop_goes_on, loop_ends, start_one-returned,
}

module _ {R : Type 0} where
  -- The check of a provider that has been started, registered
  abbrev pub check_of : LifecycleProvider R × R → HealthCheckRegistry → Attempt HealthCheckRegistry
  check_of (p, r) health = elim (p.health_check r) [
    | raised e ↦ raised e
    | returned check ↦ register_check check health
  ]

  -- A provider that fails has been started or not, and the call is there either way.
  start_one-raised :
      (p : LifecycleProvider R) (s : LifecycleState R) (e : Error)
      → (start_one p s).0 ≡ raised e
      → ((r : R) × (check_of (p, r) s.health ≡ raised e)
          × Progress s (start_one p s).1 ((p, r) ∷ []) [])
        ⊎ ((p.startup ≡ raised e) × Progress s (start_one p s).1 [] (start_failed p.name ∷ []))
  start_one-raised p s e h = elim (attempts p.startup) [
    | inl (e', failed) ↦ inr (
      ground (arith, h, failed),
      record {
        resources = tt;
        started = ground (arith, failed, append-nil s.started);
        calls = ground (arith, failed, append-nil s.calls);
        providers = ground (arith, failed);
        frozen = ground (arith, failed);
      },
    )
    | inr (r, up) ↦ inl (elim (attempts (p.health_check r)) [
      | inl (e', failed) ↦ (
        r,
        ground (arith, h, up, failed),
        record {
          resources = (up, tt);
          started = ground (arith, up, failed);
          calls = ground (arith, up, failed, append-nil (s.calls ++ start_returned p.name ∷ []));
          providers = ground (arith, up, failed);
          frozen = ground (arith, up, failed);
        },
      )
      | inr (check, asked) ↦ elim (attempts (register_check check s.health)) [
        | inl (e', failed) ↦ (
          r,
          ground (arith, h, up, asked, failed),
          record {
            resources = (up, tt);
            started = ground (arith, up, asked, failed);
            calls =
                ground
                  (arith, up, asked, failed, append-nil (s.calls ++ start_returned p.name ∷ []));
            providers = ground (arith, up, asked, failed);
            frozen = ground (arith, up, asked, failed);
          },
        )
        | inr (health, registered) ↦ absurd (ground (arith, up, asked, registered))
      ]
    ])
  ]

  -- Where a start has failed and with what: the startup of the next provider has raised it, or the
  -- last started one has, in place of its check.
  pub data Failed (done : List (LifecycleProvider R × R)) (later : List (LifecycleProvider R))
      (e : Error) : List Call → Type 0 where
    at_startup :
        (p : LifecycleProvider R) (rest : List (LifecycleProvider R))
        → later ≡ p ∷ rest
        → p.startup ≡ raised e
        → Failed done later e (start_failed p.name ∷ [])
    at_check :
        (init : List (LifecycleProvider R × R)) (x : LifecycleProvider R × R)
        (health : HealthCheckRegistry)
        → done ≡ init ++ x ∷ []
        → check_of x health ≡ raised e
        → Failed done later e []

  Failed-later :
      (x : LifecycleProvider R × R) (done : List (LifecycleProvider R × R))
      (later : List (LifecycleProvider R)) (e : Error) (failing : List Call)
      → Failed done later e failing
      → Failed (x ∷ done) later e failing
  Failed-later x done later e _ (at_startup p rest next raises) = at_startup p rest next raises
  Failed-later x done later e _ (at_check init y health last raises) =
      at_check (x ∷ init) y health (ap (λ ys. x ∷ ys) last) raises

  -- The providers in `done` are the first of the list.
  pub record Interrupted (ps : List (LifecycleProvider R)) (s s' : LifecycleState R) (e : Error)
      : Type 0 where
    pub done : List (LifecycleProvider R × R)
    pub later : List (LifecycleProvider R)
    pub failing : List Call
    pub first_ones : ps ≡ map provider_of done ++ later
    pub failed : Failed done later e failing
    pub progress : Progress s s' done failing

  pub start_loop-raised :
      (ps : List (LifecycleProvider R)) (s : LifecycleState R) (e : Error)
      → (start_loop ps s).0 ≡ raised e
      → Interrupted ps s (start_loop ps s).1 e
  start_loop-raised [] s e h = absurd (ground (arith, h))
  start_loop-raised (p ∷ ps) s e h =
      let a = start_one p s in
      elim (attempts a.0) [
        | inl (e', failed) ↦
            let ends = loop_ends p ps s e' failed in
            subst (λ x. Interrupted (p ∷ ps) s x.1 e) (sym ends)
              (elim (start_one-raised p s e (failed ∙ (ap (λ x. x.0) (sym ends) ∙ h))) [
                | inl (r, raises, one) ↦ record {
                  done = (p, r) ∷ [];
                  later = ps;
                  failing = [];
                  first_ones = refl;
                  failed = at_check [] (p, r) s.health refl raises;
                  progress = one;
                }
                | inr (raises, none_started) ↦ record {
                  done = [];
                  later = p ∷ ps;
                  failing = start_failed p.name ∷ [];
                  first_ones = refl;
                  failed = at_startup p ps refl raises;
                  progress = none_started;
                }
              ])
        | inr (v, good) ↦
            let (r, one) = start_one-returned p s v good in
            let on = loop_goes_on p ps s v good in
            let more = start_loop-raised ps a.1 e (ap (λ x. x.0) (sym on) ∙ h) in
            subst (λ x. Interrupted (p ∷ ps) s x.1 e) (sym on)
              (record {
                done = (p, r) ∷ more.done;
                later = more.later;
                failing = more.failing;
                first_ones = ap (λ xs. p ∷ xs) more.first_ones;
                failed = Failed-later (p, r) more.done more.later e more.failing more.failed;
                progress =
                    Progress-step (p, r) s a.1 (start_loop ps a.1).1 more.done more.failing one
                      more.progress;
              })
      ]
