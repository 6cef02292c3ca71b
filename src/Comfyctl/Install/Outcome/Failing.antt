-- ===== src/Comfyctl/Install/Outcome/Failing.antt =====
-- Parts of `command_instance_install` of comfyctl/cli.py that end with a failure.
use comfy_shell_v.Prelude.{ℕ, String, true, false, ◌≡◌, refl, ◌∙◌, sym, subst, ⊤}
use comfy_shell_v.Comfyctl.Paths.{AbsolutePath, InstancePaths, valid, instance_paths}
use comfy_shell_v.Comfyctl.Machine.{
  Platform, Machine, Result, ok, failed, value_error, crash, exhausted, Action, continue,
  finally_do, pure, ◌>>=◌, ◌>>◌,
}
use comfy_shell_v.Comfyctl.Tools.{instance_paths_of, ensure_instance_dirs, make_instance_dirs}
use comfy_shell_v.Comfyctl.Install.Keeps.{Keeps}
use comfy_shell_v.Comfyctl.Contract.{bind-ok}
use comfy_shell_v.Comfyctl.Install.Outcome.{is_reported, Unfailing}

-- A part that leaves what stands at a path where it ends with a failure
pub record FailureKeeps {A : Type 0} (env : Platform) (q : AbsolutePath) (part : Action A)
    : Type 0 where
  pub at : (m : Machine) → is_reported (part env m).0 ≡ true → (part env m).1.files q ≡ m.files q

module _ (env : Platform) (q : AbsolutePath) where
  pub Unfailing-FailureKeeps :
      {A : Type 0} (part : Action A) → Unfailing part → FailureKeeps env q part
  Unfailing-FailureKeeps part h = record {
    at = λ m reported. absurd (false_true (sym (h.at env m) ∙ reported));
  }
    where
      false_true : false ≡ true → ⊥
      false_true e = cc

  continue-FailureKeeps :
      {A : Type 0} {B : Type 0} (r : Result A) (f : A → Action B) (m : Machine)
      → ((a : A) → FailureKeeps env q (f a))
      → is_reported (continue r f env m).0 ≡ true
      → (continue r f env m).1.files q ≡ m.files q
  continue-FailureKeeps (ok a) f m k h = (k a).at m h
  continue-FailureKeeps (failed e) f m k h = refl
  continue-FailureKeeps (value_error text) f m k h = refl
  continue-FailureKeeps crash f m k h = refl
  continue-FailureKeeps exhausted f m k h = refl

  pub bind-FailureKeeps :
      {A : Type 0} {B : Type 0} (part : Action A) (f : A → Action B)
      → Keeps env q part
      → ((a : A) → FailureKeeps env q (f a))
      → FailureKeeps env q (part >>= f)
  bind-FailureKeeps part f h k = record {
    at = λ m reported. let (r, m') = part env m in continue-FailureKeeps r f m' k reported ∙ h.at m;
  }

-- The same, where only one value can be returned.
pub known-FailureKeeps :
    {A : Type 0} {B : Type 0} (env : Platform) (q : AbsolutePath) (part : Action A) (a : A)
    (f : A → Action B) (m : Machine)
    → Keeps env q part
    → ((b : A) → (part env m).0 ≡ ok b → b ≡ a)
    → FailureKeeps env q (f a)
    → is_reported ((part >>= f) env m).0 ≡ true
    → ((part >>= f) env m).1.files q ≡ m.files q
known-FailureKeeps env q part a f m h only k reported =
    let (r, m') = part env m in by_result r m' only reported ∙ h.at m
  where
    by_result :
        (r : Result _) (m' : Machine)
        → ((b : _) → r ≡ ok b → b ≡ a)
        → is_reported (continue r f env m').0 ≡ true
        → (continue r f env m').1.files q ≡ m'.files q
    by_result (ok b) m' only rep =
        subst (λ c. is_reported (f c env m').0 ≡ true → (f c env m').1.files q ≡ m'.files q)
          (sym (only b refl)) (k.at m') rep
    by_result (failed e) m' only rep = refl
    by_result (value_error text) m' only rep = refl
    by_result crash m' only rep = refl
    by_result exhausted m' only rep = refl

pub made_returns :
    (part : Action ⊤) (paths a : InstancePaths) (env : Platform) (m : Machine)
    → ((part >> pure paths) env m).0 ≡ ok a
    → a ≡ paths
made_returns part paths a env m h = let (u, _, e) = bind-ok part (λ _. pure paths) env m a h in cc

module _ (env : Platform) (q : AbsolutePath) (body : Action ℕ) (cleanup : Action ⊤) where
  after_body :
      (r : Result ℕ) (c : Result ⊤) (m m' : Machine)
      → is_reported c ≡ false
      → m'.files q ≡ m.files q
      → is_reported (continue c (λ _ _ w. (r, w)) env m').0 ≡ true
      → (is_reported r ≡ true) × ((continue c (λ _ _ w. (r, w)) env m').1.files q ≡ m.files q)
  after_body r (ok u) m m' h e k = (k, e)
  after_body r (failed _) m m' h e k = cc
  after_body r (value_error _) m m' h e k = cc
  after_body r crash m m' h e k = cc
  after_body r exhausted m m' h e k = cc

  pub finally-FailureKeeps :
      FailureKeeps env q body
      → Keeps env q cleanup
      → Unfailing cleanup
      → FailureKeeps env q (finally_do body cleanup)
  finally-FailureKeeps h k u = record {
    at = λ m reported.
        let (r, m1) = body env m in
        let (c, m2) = cleanup env m1 in
        let (failed_body, same) = after_body r c m1 m2 (u.at env m1) (k.at m1) reported in
        same ∙ h.at m failed_body;
  }

pub ensure_instance_dirs-valid :
    (data_root slug : String) (paths : InstancePaths) (env : Platform) (m : Machine)
    → instance_paths env.paths data_root slug ≡ valid paths
    → ensure_instance_dirs data_root slug env m ≡ (make_instance_dirs paths >> pure paths) env m
unfolding ensure_instance_dirs instance_paths_of
ensure_instance_dirs-valid data_root slug paths env m h = rw h refl
