-- ===== src/Lifecycle/Startup.antt =====
-- What `startup` of app/core/lifecycle.py starts, and what it leaves when it raises.
use comfy_shell_v.Prelude.{
  String, true, any, Bool-cases, ◌≡◌, refl, sym, ◌∙◌, ap, subst, arith, List, [], ◌∷◌, ◌++◌,
  reverse, map, All, ⊤, ◌⊎◌, inl, inr,
}
use mathlib.Core.List.{append-nil}
use comfy_shell_v.Lifecycle.{
  Attempt, is_exception, returned, raised, Error, no_providers, LifecycleProvider, LifecycleState,
  Call,
}
use comfy_shell_v.Lifecycle.Providers.{
  raise_errors, start_loop, startup, finish_startup, raise_again, shutdown, validate,
}
use comfy_shell_v.Lifecycle.Shutdown.{stop_errors, interrupts, stop_call, shutdown_lem}
use comfy_shell_v.Lifecycle.Progress.{attempts, start_call, provider_of, start_loop-returned}
use comfy_shell_v.Lifecycle.Failing.{Failed, start_loop-raised}

list_cases {ℓ} :
    {A : Type ℓ} (xs : List A) → (xs ≡ []) ⊎ ((x : A) × (rest : List A) × (xs ≡ x ∷ rest))
list_cases [] = inl refl
list_cases (x ∷ rest) = inr (x, rest, refl)

same_error : (a b : Error) → ◌≡◌ {A = Attempt ⊤} (raised a) (raised b) → a ≡ b
same_error a b h = cc

module _ {R : Type 0} where
  -- A startup that returns has started every provider, in the order of their registration.
  pub record AllStarted (s s' : LifecycleState R) : Type 0 where
    pub done : List (LifecycleProvider R × R)
    pub whole : map provider_of done ≡ s.providers
    pub resources : All (λ (x : LifecycleProvider R × R). x.0.startup ≡ returned x.1) done
    pub started : s'.started ≡ s.started ++ done
    pub calls : s'.calls ≡ s.calls ++ map start_call done
    pub frozen : s'.frozen ≡ true

  -- A startup that fails has shut down the providers that it had started, from the last one.
  pub record RolledBack (s s' : LifecycleState R) (e : Error) : Type 0 where
    pub done : List (LifecycleProvider R × R)
    pub later : List (LifecycleProvider R)
    pub failing : List Call
    pub first_ones : s.providers ≡ map provider_of done ++ later
    pub failed : Failed done later e failing
    pub resources : All (λ (x : LifecycleProvider R × R). x.0.startup ≡ returned x.1) done
    pub started : s'.started ≡ []
    pub calls : s'.calls ≡ s.calls ++ map start_call done ++ failing ++ map stop_call (reverse done)
    pub frozen : s'.frozen ≡ s.frozen

  startup_goes :
      (s : LifecycleState R)
      → ((s.providers ≡ []) × (startup s ≡ (raised no_providers, s)))
        ⊎ (startup s ≡ finish_startup (start_loop s.providers s))
  unfolding startup validate
  startup_goes s = elim (list_cases s.providers) [
    | inl e ↦ inl (e, ground (arith, e))
    | inr (p, rest, e) ↦ inr (ground (arith, e))
  ]

  -- A startup that returns has started every registered provider once, in the order of registration,
  -- each with the resource that its startup returned, and the registry is frozen.
  pub startup-AllStarted :
      (s : LifecycleState R) (u : ⊤) → (startup s).0 ≡ returned u → AllStarted s (startup s).1
  startup-AllStarted s u h = elim (startup_goes s) [
    | inl (_, same) ↦ absurd (ground (arith, h, same))
    | inr goes ↦ elim (attempts (start_loop s.providers s).0) [
      | inl (e, failed) ↦ absurd (ground (arith, h, goes, failed))
      | inr (v, good) ↦
          let (done, whole, progress) = start_loop-returned s.providers s v good in
          let ends : startup s
              ≡ (returned tt, record (start_loop s.providers s).1 { frozen = true }) =
            ground (arith, goes, good) in
          subst (λ x. AllStarted s x.1) (sym ends)
            (record {
              done = done;
              whole = whole;
              resources = progress.resources;
              started = progress.started;
              calls = progress.calls ∙ append-nil (s.calls ++ map start_call done);
              frozen = refl;
            })
    ]
  ]

  raise_again_state : (e : Error) (x : Attempt ⊤ × LifecycleState R) → (raise_again e x).1 ≡ x.1
  raise_again_state e (returned u, s) = refl
  raise_again_state e (raised e', s) = refl

  raise_again-raise_errors :
      (e : Error) (errors : List String) (s : LifecycleState R)
      → (raise_again e (raise_errors errors, s)).0 ≡ raised e
  raise_again-raise_errors e [] s = refl
  raise_again-raise_errors e (n ∷ errors) s = refl

  -- Where a startup ends with an Exception, that is the one it has failed with, and the shutdown in
  -- it has gone to its end.
  cleaned :
      (s : LifecycleState R) (e' e : Error)
      → (finish_startup (raised e', s)).0 ≡ raised e
      → is_exception e ≡ true
      → (e' ≡ e)
        × ((finish_startup (raised e', s)).1
            ≡ record s { started = []; calls = s.calls ++ map stop_call (reverse s.started) })
  cleaned s e' e h exc = elim (Bool-cases (is_exception e')) [
    | inr base ↦ absurd (ground (arith, h, exc, base))
    | inl caught ↦ elim (Bool-cases (any interrupts (reverse s.started))) [
      | inl cut ↦
          let c = (shutdown_lem s).1 cut in
          absurd (ground (arith, h, exc, caught, c.raised_on, c.is_none))
      | inr none_cut ↦
          let down = ((shutdown_lem s).0 none_cut).0 in
          let again : (finish_startup (raised e', s)).0 ≡ raised e' = rw caught (
            ap (λ x. (raise_again e' x).0) down
            ∙ raise_again-raise_errors e' (stop_errors (reverse s.started)) (record s {
              started = [];
              calls = s.calls ++ map stop_call (reverse s.started);
            })) in
          (
            same_error e' e (sym again ∙ h),
            rw caught (raise_again_state e' (shutdown s) ∙ ap (λ x. x.1) down),
          )
    ]
  ]

  -- From a registry with nothing started, a startup that ends with an Exception either finds
  -- no providers and does nothing, or has started the first providers of the registry, each
  -- with the resource that its startup returned, up to the one whose startup raised that same
  -- exception, or whose health check did or could not be registered for it, and has called
  -- the shutdown of just those that started, each once, from the last started to the first,
  -- also where a shutdown raises; none is left started and the registry is not frozen by it.
  pub startup-RolledBack :
      (s : LifecycleState R) (e : Error)
      → s.started ≡ []
      → (startup s).0 ≡ raised e
      → is_exception e ≡ true
      → ((s.providers ≡ []) × ((startup s).1 ≡ s)) ⊎ RolledBack s (startup s).1 e
  startup-RolledBack s e clean h exc = elim (startup_goes s) [
    | inl (empty, same) ↦ inl (empty, ap (λ x. x.1) same)
    | inr goes ↦ elim (attempts (start_loop s.providers s).0) [
      | inr (v, good) ↦ absurd (ground (arith, h, goes, good))
      | inl (e', failed) ↦
          let l = start_loop s.providers s in
          let broken = start_loop-raised s.providers s e' failed in
          let only : l.1.started ≡ broken.done =
            broken.progress.started ∙ ap (λ xs. xs ++ broken.done) clean in
          let ends : startup s ≡ finish_startup (raised e', l.1) =
            goes ∙ ap (λ a. finish_startup (a, l.1)) failed in
          let (same, down) = cleaned l.1 e' e (ap (λ x. x.0) (sym ends) ∙ h) exc in
          inr (
            subst (λ x. RolledBack s x e) (sym (ap (λ x. x.1) ends ∙ down))
              (record {
                done = broken.done;
                later = broken.later;
                failing = broken.failing;
                first_ones = broken.first_ones;
                failed =
                    subst (λ x. Failed broken.done broken.later x broken.failing) same
                      broken.failed;
                resources = broken.progress.resources;
                started = refl;
                calls =
                    ap (λ xs. l.1.calls ++ map stop_call (reverse xs)) only
                    ∙ ap (λ cs. cs ++ map stop_call (reverse broken.done)) broken.progress.calls;
                frozen = broken.progress.frozen;
              }))
    ]
  ]
