-- ===== src/Lifecycle/Progress.antt =====
-- How far the loop of `startup` of app/core/lifecycle.py comes.
use comfy_shell_v.Prelude.{
  ◌≡◌, refl, sym, ◌∙◌, ap, subst, arith, List, [], ◌∷◌, ◌++◌, map, All, ⊤, ◌⊎◌, inl, inr,
}
use mathlib.Core.List.{append-nil, append_assoc}
use comfy_shell_v.Lifecycle.{
  Attempt, returned, raised, Error, LifecycleProvider, LifecycleState, Call, start_returned,
}
use comfy_shell_v.Lifecycle.Providers.{start_loop, start_one, register_check}

pub attempts {ℓ} :
    {A : Type ℓ} (a : Attempt A) → ((e : Error) × (a ≡ raised e)) ⊎ ((x : A) × (a ≡ returned x))
attempts (raised e) = inl (e, refl)
attempts (returned x) = inr (x, refl)

module _ {R : Type 0} where
  abbrev pub start_call : LifecycleProvider R × R → Call
  start_call (p, r) = start_returned p.name

  abbrev pub provider_of : LifecycleProvider R × R → LifecycleProvider R
  provider_of (p, r) = p

  -- From one state to another the providers in `done` have been started, each with the resource that
  -- its startup returned, and the calls are those, and `failing` after them.
  pub record Progress (s s' : LifecycleState R) (done : List (LifecycleProvider R × R))
      (failing : List Call) : Type 0 where
    pub resources : All (λ (x : LifecycleProvider R × R). x.0.startup ≡ returned x.1) done
    pub started : s'.started ≡ s.started ++ done
    pub calls : s'.calls ≡ s.calls ++ map start_call done ++ failing
    pub providers : s'.providers ≡ s.providers
    pub frozen : s'.frozen ≡ s.frozen

  pub start_one-returned :
      (p : LifecycleProvider R) (s : LifecycleState R) (u : ⊤)
      → (start_one p s).0 ≡ returned u
      → (r : R) × Progress s (start_one p s).1 ((p, r) ∷ []) []
  start_one-returned p s u h = elim (attempts p.startup) [
    | inl (e, failed) ↦ absurd (ground (arith, failed))
    | inr (r, up) ↦ elim (attempts (p.health_check r)) [
      | inl (e, failed) ↦ absurd (ground (arith, up, failed))
      | inr (check, asked) ↦ elim (attempts (register_check check s.health)) [
        | inl (e, failed) ↦ absurd (ground (arith, up, asked, failed))
        | inr (health, registered) ↦ (
          r,
          record {
            resources = (up, tt);
            started = ground (arith, up, asked, registered);
            calls =
                ground (
                  arith,
                  up,
                  asked,
                  registered,
                  append-nil (s.calls ++ start_returned p.name ∷ []),
                );
            providers = ground (arith, up, asked, registered);
            frozen = ground (arith, up, asked, registered);
          },
        )
      ]
    ]
  ]

  All-append {ℓ} :
      (P : LifecycleProvider R × R → Type ℓ) (xs ys : List (LifecycleProvider R × R))
      → All P xs
      → All P ys
      → All P (xs ++ ys)
  All-append P [] ys h k = k
  All-append P (x ∷ xs) ys (h, hs) k = (h, All-append P xs ys hs k)

  -- One provider after which more are started
  pub Progress-step :
      (x : LifecycleProvider R × R) (s s' s'' : LifecycleState R)
      (done : List (LifecycleProvider R × R)) (failing : List Call)
      → Progress s s' (x ∷ []) []
      → Progress s' s'' done failing
      → Progress s s'' (x ∷ done) failing
  Progress-step x s s' s'' done failing one more = record {
    resources = All-append _ (x ∷ []) done one.resources more.resources;
    started =
        more.started ∙ ap (λ xs. xs ++ done) one.started ∙ append_assoc s.started (x ∷ []) done;
    calls =
        more.calls
        ∙ ap (λ cs. cs ++ map start_call done ++ failing)
            (one.calls ∙ append-nil (s.calls ++ start_call x ∷ []))
        ∙ ap (λ cs. cs ++ failing) (append_assoc s.calls (start_call x ∷ []) (map start_call done));
    providers = more.providers ∙ one.providers;
    frozen = more.frozen ∙ one.frozen;
  }

  pub loop_goes_on :
      (p : LifecycleProvider R) (ps : List (LifecycleProvider R)) (s : LifecycleState R) (v : ⊤)
      → (start_one p s).0 ≡ returned v
      → start_loop (p ∷ ps) s ≡ start_loop ps (start_one p s).1
  loop_goes_on p ps s v good = ground (arith, good)

  pub loop_ends :
      (p : LifecycleProvider R) (ps : List (LifecycleProvider R)) (s : LifecycleState R) (e : Error)
      → (start_one p s).0 ≡ raised e
      → start_loop (p ∷ ps) s ≡ (raised e, (start_one p s).1)
  loop_ends p ps s e failed = ground (arith, failed)

  pub start_loop-returned :
      (ps : List (LifecycleProvider R)) (s : LifecycleState R) (u : ⊤)
      → (start_loop ps s).0 ≡ returned u
      → (done : List (LifecycleProvider R × R)) × (map provider_of done ≡ ps)
        × Progress s (start_loop ps s).1 done []
  start_loop-returned [] s u h = (
    [],
    refl,
    record {
      resources = tt;
      started = sym (append-nil s.started);
      calls = ground (arith, append-nil s.calls);
      providers = refl;
      frozen = refl;
    },
  )
  start_loop-returned (p ∷ ps) s u h =
      let a = start_one p s in
      elim (attempts a.0) [
        | inl (e, failed) ↦
            absurd (ground (arith, ap (λ x. x.0) (sym (loop_ends p ps s e failed)) ∙ h))
        | inr (v, good) ↦
            let (r, one) = start_one-returned p s v good in
            let on = loop_goes_on p ps s v good in
            let (done, whole, more) = start_loop-returned ps a.1 u (ap (λ x. x.0) (sym on) ∙ h) in
            (
              (p, r) ∷ done,
              ap (λ xs. p ∷ xs) whole,
              subst (λ x. Progress s x.1 ((p, r) ∷ done) []) (sym on)
                  (Progress-step (p, r) s a.1 (start_loop ps a.1).1 done [] one more),
            )
      ]
