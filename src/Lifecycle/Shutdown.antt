-- ===== src/Lifecycle/Shutdown.antt =====
-- What `shutdown` of app/core/lifecycle.py stops, and when it raises.
use comfy_shell_v.Prelude.{
  String, Bool, true, false, not, ◌≡◌, refl, sym, ◌∙◌, ap, subst, arith, List, [], ◌∷◌, ◌++◌,
  reverse, map, any, Bool-cases, inl, inr, ⊤,
}
use mathlib.Core.List.{append-nil, append_assoc, reverse-reverse}
use comfy_shell_v.Lifecycle.{
  Attempt, returned, raised, Error, is_exception, shutdown_failed, LifecycleProvider,
  LifecycleState, Call, stopped,
}
use comfy_shell_v.Lifecycle.Providers.{
  kept_errors, stop_loop, raise_errors, finish_shutdown, shutdown, type_name,
}

-- The type of an exception that a call raises
abbrev pub stop_error : Attempt ⊤ → List String
stop_error (returned _) = []
stop_error (raised e) = type_name e ∷ []

abbrev pub is_interrupted : Attempt ⊤ → Bool
is_interrupted (returned _) = false
is_interrupted (raised e) = not (is_exception e)

kept_errors-caught :
    (errors : List String) (a : Attempt ⊤)
    → is_interrupted a ≡ false
    → kept_errors errors a ≡ returned (errors ++ stop_error a)
kept_errors-caught errors (returned u) h = ap (λ es. returned es) (sym (append-nil errors))
kept_errors-caught errors (raised e) h = ground (arith, h)

kept_errors-interrupted :
    (errors : List String) (a : Attempt ⊤)
    → is_interrupted a ≡ true
    → (e : Error) × (a ≡ raised e) × (is_exception e ≡ false) × (kept_errors errors a ≡ raised e)
kept_errors-interrupted errors (returned u) h = cc
kept_errors-interrupted errors (raised e) h = (e, refl, ground (arith, h), ground (arith, h))

module _ {R : Type 0} where
  abbrev pub stop_call : LifecycleProvider R × R → Call
  stop_call (p, r) = stopped p.name

  -- The shutdown of the provider raises a BaseException that is no Exception.
  abbrev pub interrupts : LifecycleProvider R × R → Bool
  interrupts (p, r) = is_interrupted (p.shutdown r)

  -- The types of the exceptions that the providers raise, in the order of the list
  abbrev pub stop_errors : List (LifecycleProvider R × R) → List String
  stop_errors [] = []
  stop_errors ((p, r) ∷ rest) = stop_error (p.shutdown r) ++ stop_errors rest

  popped :
      LifecycleProvider R → List (LifecycleProvider R × R) → LifecycleState R → LifecycleState R
  popped p rest s = record s { started = reverse rest; calls = s.calls ++ stopped p.name ∷ [] }

  stop_loop-goes_on :
      (p : LifecycleProvider R) (r : R) (rest : List (LifecycleProvider R × R))
      (errors : List String) (s : LifecycleState R)
      → is_interrupted (p.shutdown r) ≡ false
      → stop_loop ((p, r) ∷ rest) errors s
        ≡ stop_loop rest (errors ++ stop_error (p.shutdown r)) (popped p rest s)
  unfolding popped
  stop_loop-goes_on p r rest errors s h =
      rw (kept_errors-caught errors (p.shutdown r) h, stop_loop) refl

  stop_loop-ends :
      (p : LifecycleProvider R) (r : R) (rest : List (LifecycleProvider R × R))
      (errors : List String) (s : LifecycleState R)
      → is_interrupted (p.shutdown r) ≡ true
      → (e : Error) × (p.shutdown r ≡ raised e)
        × (is_exception e ≡ false)
        × (stop_loop ((p, r) ∷ rest) errors s ≡ (raised e, popped p rest s))
  unfolding popped
  stop_loop-ends p r rest errors s h =
      let (e, raises, is_none, ends) = kept_errors-interrupted errors (p.shutdown r) h in
      (e, raises, is_none, rw (ends, stop_loop) refl)

  stop_loop_cons :
      (x : LifecycleProvider R × R) (rest : List (LifecycleProvider R × R)) (errors : List String)
      (s : LifecycleState R)
      → any interrupts (x ∷ rest) ≡ false
      → stop_loop (x ∷ rest) errors s ≡ (
        returned (errors ++ stop_errors (x ∷ rest)),
        record s { started = []; calls = s.calls ++ map stop_call (x ∷ rest) },
      )
  unfolding popped
  stop_loop_cons (p, r) [] errors s h =
      stop_loop-goes_on p r [] errors s (ground (arith, h))
      ∙ (ap
          (λ es. (
            returned (errors ++ es),
            record s { started = []; calls = s.calls ++ stopped p.name ∷ [] },
          ))
          (sym (append-nil (stop_error (p.shutdown r)))))
  stop_loop_cons (p, r) (x ∷ rest) errors s h =
      let e = stop_error (p.shutdown r) in
      stop_loop-goes_on p r (x ∷ rest) errors s (ground (arith, h))
      ∙ (stop_loop_cons x rest (errors ++ e)
            (record s { started = reverse (x ∷ rest); calls = s.calls ++ stopped p.name ∷ [] })
            (ground (arith, h))
          ∙ (λ i. (
            returned (append_assoc errors e (stop_errors (x ∷ rest)) i),
            record s {
              started = [];
              calls = append_assoc s.calls (stopped p.name ∷ []) (map stop_call (x ∷ rest)) i;
            },
          )))

  stop_loop_of :
      (xs : List (LifecycleProvider R × R)) (s : LifecycleState R)
      → reverse s.started ≡ xs
      → any interrupts xs ≡ false
      → stop_loop xs [] s ≡ (
        returned (stop_errors xs),
        record s { started = []; calls = s.calls ++ map stop_call xs },
      )
  stop_loop_of (x ∷ rest) s e h = stop_loop_cons x rest [] s h
  stop_loop_of [] s e h =
      let none_left : s.started ≡ [] = sym (reverse-reverse s.started) ∙ ap reverse e in
      let same = sym (append-nil s.calls) in
      λ i. (returned [], record s { started = none_left i; calls = same i })

  -- The providers down to the first one that interrupts have been shut down, and the others are left
  -- started.
  pub record Cut (xs : List (LifecycleProvider R × R)) (s : LifecycleState R) (outcome : Attempt ⊤)
      (s' : LifecycleState R) : Type 0 where
    pub done : List (LifecycleProvider R × R)
    pub last : LifecycleProvider R × R
    pub kept : List (LifecycleProvider R × R)
    pub error : Error
    pub whole : xs ≡ done ++ last ∷ kept
    pub raises : last.0.shutdown last.1 ≡ raised error
    pub is_none : is_exception error ≡ false
    pub raised_on : outcome ≡ raised error
    pub started : s'.started ≡ reverse kept
    pub calls : s'.calls ≡ s.calls ++ map stop_call (done ++ last ∷ [])

  stop_loop-Cut :
      (xs : List (LifecycleProvider R × R)) (errors : List String) (s : LifecycleState R)
      → any interrupts xs ≡ true
      → let (outcome, s') = finish_shutdown (stop_loop xs errors s) in Cut xs s outcome s'
  unfolding popped
  stop_loop-Cut [] errors s h = cc
  stop_loop-Cut ((p, r) ∷ rest) errors s h = elim (Bool-cases (is_interrupted (p.shutdown r))) [
    | inl cut ↦
        let (e, raises, is_none, ends) = stop_loop-ends p r rest errors s cut in
        subst (λ x. Cut ((p, r) ∷ rest) s (finish_shutdown x).0 (finish_shutdown x).1) (sym ends)
          (record {
            done = [];
            last = (p, r);
            kept = rest;
            error = e;
            whole = refl;
            raises = raises;
            is_none = is_none;
            raised_on = refl;
            started = refl;
            calls = refl;
          })
    | inr caught ↦
        let on = stop_loop-goes_on p r rest errors s caught in
        let more =
          stop_loop-Cut rest (errors ++ stop_error (p.shutdown r)) (popped p rest s)
            (ground (arith, h, caught)) in
        subst (λ x. Cut ((p, r) ∷ rest) s (finish_shutdown x).0 (finish_shutdown x).1) (sym on)
          (record {
            done = (p, r) ∷ more.done;
            last = more.last;
            kept = more.kept;
            error = more.error;
            whole = ap (λ ys. (p, r) ∷ ys) more.whole;
            raises = more.raises;
            is_none = more.is_none;
            raised_on = more.raised_on;
            started = more.started;
            calls =
                more.calls
                ∙ append_assoc s.calls (stopped p.name ∷ [])
                    (map stop_call (more.done ++ more.last ∷ []));
          })
  ]

  pub shutdown_lem :
      (s : LifecycleState R)
      → let xs = reverse s.started in
        (any interrupts xs ≡ false
          → (shutdown s ≡ (
            raise_errors (stop_errors xs),
            record s { started = []; calls = s.calls ++ map stop_call xs },
          ))
            × (stop_errors xs ≡ [] → (shutdown s).0 ≡ returned tt)
            × ((n : String) (rest : List String)
                → stop_errors xs ≡ n ∷ rest
                → (shutdown s).0 ≡ raised (shutdown_failed (n ∷ rest))))
        × (any interrupts xs ≡ true → Cut xs s (shutdown s).0 (shutdown s).1)
  unfolding shutdown
  shutdown_lem s = (caught, λ h. stop_loop-Cut (reverse s.started) [] s h)
    where
      whole :
          any interrupts (reverse s.started) ≡ false
          → shutdown s ≡ (
            raise_errors (stop_errors (reverse s.started)),
            record s { started = []; calls = s.calls ++ map stop_call (reverse s.started) },
          )
      whole h = ap finish_shutdown (stop_loop_of (reverse s.started) s refl h)

      caught :
          any interrupts (reverse s.started) ≡ false
          → (shutdown s ≡ (
            raise_errors (stop_errors (reverse s.started)),
            record s { started = []; calls = s.calls ++ map stop_call (reverse s.started) },
          ))
            × (stop_errors (reverse s.started) ≡ [] → (shutdown s).0 ≡ returned tt)
            × ((n : String) (rest : List String)
                → stop_errors (reverse s.started) ≡ n ∷ rest
                → (shutdown s).0 ≡ raised (shutdown_failed (n ∷ rest)))
      caught h = (
        whole h,
        λ e. ap (λ x. x.0) (whole h) ∙ ap raise_errors e,
        λ n rest e. ap (λ x. x.0) (whole h) ∙ ap raise_errors e,
      )
