-- ===== src/Comfyctl/Install/Outcome/Lock.antt =====
-- The lock of `command_instance_install` of comfyctl/cli.py.
use mathlib.Core.List.{append-nil}
use comfy_shell_v.Prelude.{
  ℕ, Bool-cases, inl, inr, String, true, false, ◌≡◌, refl, ◌∙◌, sym, ap, arith, none, List, [], ⊤,
}
use comfy_shell_v.Prelude.Decimal.{show_ℕ}
use comfy_shell_v.Comfyctl.Catalog.{Catalog}
use comfy_shell_v.Comfyctl.Paths.{AbsolutePath, InstancePaths, child, is_at_or_above}
use comfy_shell_v.Comfyctl.Machine.{
  Platform, Machine, Files, unlink, write, passed, file, written as written_at, Result, ok, failed,
  value_error, crash, exhausted, Action, continue, finally_do, ask, write_text, rmtree, ◌>>=◌, ◌>>◌,
}
use comfy_shell_v.Comfyctl.Machine.Under.{is_at_or_above-append}
use comfy_shell_v.Comfyctl.Tools.{unique_name, require_tool}
use comfy_shell_v.Comfyctl.Install.Prepare.{InstallArgs}
use comfy_shell_v.Comfyctl.Install.{staged, clean_up, under_lock, check_install, install_at}
use comfy_shell_v.Comfyctl.Install.Keeps.{Keeps}

-- The operating system removes what it is asked to remove.
pub record Removes (env : Platform) : Type 0 where
  pub unlinks :
      (t : ℕ) (files : Files) (path : AbsolutePath) → env.refuses t files (unlink path) ≡ false
  pub clears : (t : ℕ) (q : AbsolutePath) → env.stays t q ≡ false

self_above : (p : AbsolutePath) → is_at_or_above p p ≡ true
self_above p = ap (λ a. is_at_or_above p a) (sym (append-nil p)) ∙ is_at_or_above-append p []

clean_up_lem :
    (paths : InstancePaths) (staging_root : AbsolutePath) (env : Platform) (m : Machine)
    → Removes env
    → ((clean_up paths staging_root env m).0 ≡ ok tt)
      × ((clean_up paths staging_root env m).1.files paths.lock ≡ none)
      × ((q : AbsolutePath)
          → is_at_or_above staging_root q ≡ true
          → (clean_up paths staging_root env m).1.files q ≡ none)
unfolding clean_up
clean_up_lem paths staging_root env m removes =
    let m1 = (rmtree staging_root env m).1 in
    let done = removes.unlinks m1.tick m1.files paths.lock in
    (
      rw done refl,
      rw done (rw (self_above paths.lock) refl),
      λ q h. rw done (ground (arith, h, removes.clears m.tick q)),
    )

finally_files :
    {A : Type 0} (body : Action A) (cleanup : Action ⊤) (env : Platform) (m : Machine)
    → (cleanup env (body env m).1).0 ≡ ok tt
    → (finally_do body cleanup env m).1 ≡ (cleanup env (body env m).1).1
finally_files body cleanup env m h = rw h refl

continue-free :
    {A : Type 0} {B : Type 0} (r : Result A) (f : A → Action B) (path : AbsolutePath)
    (env : Platform) (m : Machine)
    → (a : A) × (r ≡ ok a)
    → ((a : A) (m : Machine) → (f a env m).1.files path ≡ none)
    → (continue r f env m).1.files path ≡ none
continue-free (ok a) f path env m h k = k a m
continue-free (failed e) f path env m (a, h) k = cc
continue-free (value_error text) f path env m (a, h) k = cc
continue-free crash f path env m (a, h) k = cc
continue-free exhausted f path env m (a, h) k = cc

unique_name-ok :
    (env : Platform) (m : Machine) → (a : String) × ((unique_name "install" env m).0 ≡ ok a)
unfolding unique_name
unique_name-ok env m = (_, refl)

under_lock-free :
    (catalog : Catalog) (args : InstallArgs) (paths : InstancePaths) (env : Platform) (m : Machine)
    → Removes env
    → (under_lock catalog args paths env m).1.files paths.lock ≡ none
unfolding under_lock
under_lock-free catalog args paths env m removes =
    let then_staged : String → Action ℕ = λ name.
      finally_do (staged catalog args paths (child paths.staging_dir name))
        (clean_up paths (child paths.staging_dir name)) in
    continue-free (unique_name "install" env m).0 then_staged paths.lock env
      (unique_name "install" env m).1 (unique_name-ok env m)
      λ name m1.
        let staging_root = child paths.staging_dir name in
        let body = staged catalog args paths staging_root in
        let (returns, free, _) = clean_up_lem paths staging_root env (body env m1).1 removes in
        ap (λ w. w.files paths.lock)
          (finally_files body (clean_up paths staging_root) env m1 returns)
        ∙ free

-- A part that has left no lock where there was none
pub record Unlocks {ℓ} {A : Type ℓ} (env : Platform) (lock : AbsolutePath) (part : Action A)
    : Type ℓ where
  pub at : (m : Machine) → m.files lock ≡ none → (part env m).1.files lock ≡ none

module _ {ℓ κ} {A : Type ℓ} {B : Type κ} (env : Platform) (lock : AbsolutePath) where
  continue-Unlocks :
      (r : Result A) (f : A → Action B) (m : Machine)
      → m.files lock ≡ none
      → ((a : A) → Unlocks env lock (f a))
      → (continue r f env m).1.files lock ≡ none
  continue-Unlocks (ok a) f m h k = (k a).at m h
  continue-Unlocks (failed e) f m h k = h
  continue-Unlocks (value_error text) f m h k = h
  continue-Unlocks crash f m h k = h
  continue-Unlocks exhausted f m h k = h

  bind-Unlocks :
      (part : Action A) (f : A → Action B)
      → Keeps env lock part
      → ((a : A) → Unlocks env lock (f a))
      → Unlocks env lock (part >>= f)
  bind-Unlocks part f keeps k = record {
    at = λ m h. let (r, m') = part env m in continue-Unlocks r f m' (keeps.at m ∙ h) k;
  }

write_then :
    (path : AbsolutePath) (text : String) (next : Action ℕ) (env : Platform)
    → ((m : Machine) → (next env m).1.files path ≡ none)
    → Unlocks env path (write_text path text >> next)
write_then path text next env frees = record {
  at = λ m h. elim (Bool-cases (env.refuses m.tick m.files (write path))) [
    | inl refused ↦ rw refused h
    | inr written ↦
        rw written (frees (record (passed env m) { files = written_at path (file text) m.files }))
  ];
}

pub check_install-Keeps :
    (sorted : List String → List String) (catalog : Catalog) (args : InstallArgs) (env : Platform)
    (paths : InstancePaths) (q : AbsolutePath)
    → Keeps env q (check_install sorted catalog args paths)
unfolding check_install require_tool
check_install-Keeps sorted catalog args env paths q = record { at = λ m. ground arith }

module _ (sorted : List String → List String) (catalog : Catalog) (args : InstallArgs)
    (env : Platform) (removes : Removes env) where
  pub install_at-Unlocks :
      (paths : InstancePaths) → Unlocks env paths.lock (install_at sorted catalog args paths)
  unfolding install_at
  install_at-Unlocks paths =
      bind-Unlocks env paths.lock (check_install sorted catalog args paths) _
        (check_install-Keeps sorted catalog args env paths paths.lock)
        λ _.
          bind-Unlocks env paths.lock (ask (λ env t. env.getpid)) _ (record { at = λ m. refl })
            λ pid.
              write_then paths.lock (show_ℕ pid) (under_lock catalog args paths) env
                λ m. under_lock-free catalog args paths env m removes
