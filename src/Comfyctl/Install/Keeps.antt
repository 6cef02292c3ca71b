-- ===== src/Comfyctl/Install/Keeps.antt =====
-- What `command_instance_install` of comfyctl/cli.py leaves alone until it promotes the new install.
pub mod Staging
use mathlib.Core.List.{append_assoc}
use comfy_shell_v.Prelude.{
  ℕ, String, Bool, true, false, not, ◌≡◌, refl, ◌∙◌, sym, ap, subst, arith, Option, none, some,
  List, [], ◌∷◌, ◌++◌, ◌==◌, ◌&&◌, ⊤, Bool-cases, Option-cases, inl, inr, if◌then◌else◌,
}
use comfy_shell_v.Prelude.Json.{Json, null}
use comfy_shell_v.Comfyctl.Catalog.{Catalog, torch_profile_backend}
use comfy_shell_v.Comfyctl.Paths.{AbsolutePath, InstancePaths, layout, child, is_at_or_above}
use comfy_shell_v.Comfyctl.Requirements.{torch_requirements, requirements_without_torch}
use comfy_shell_v.Comfyctl.Machine.{
  Platform, Machine, Files, Node, file, Completed, CommandEnd, finished, file_not_found,
  other_os_error, not_text, passed, CommandFailure, Result, ok, failed, value_error, crash,
  exhausted, Action, continue, pure, raise, raise_if, raise_crash, ask, asks, gets, same_path,
  path_exists, read_text, write_text, mkdir, mkdir_new, rmtree, unlink_if_there, ◌>>=◌, ◌>>◌,
}
use comfy_shell_v.Comfyctl.Machine.Under.{
  is_at_or_above-under, is_at_or_above-above, same_path-under, is_at_or_above-append,
}
use comfy_shell_v.Comfyctl.Tools.{
  run_command, completed, succeeded, unique_name, path_text, make_instance_dirs,
}
use comfy_shell_v.Comfyctl.Install.Prepare.{or_key_error}

-- The entries of an instance's directory that are followed
pub data Place : Type 0 where
  checkout_place venv_place manifest_place lock_place : Place

abbrev pub name_of : Place → String
name_of checkout_place = "ComfyUI"
name_of venv_place = ".venv"
name_of manifest_place = "manifest.json"
name_of lock_place = "instance.lock"

-- The commands that are run change nothing in the instance's directory but its staging directory.
pub record Confined (env : Platform) (root : AbsolutePath) : Type 0 where
  pub kept :
      (t : ℕ) (command : List String) (cwd : Option AbsolutePath) (files : Files) (q : AbsolutePath)
      → is_at_or_above root q ≡ true
      → is_at_or_above (child root ".staging") q ≡ false
      → (env.command t command cwd files).1 q ≡ files q

-- A part leaves what stands at a path.
pub record Keeps {ℓ} {A : Type ℓ} (env : Platform) (q : AbsolutePath) (part : Action A)
    : Type ℓ where
  pub at : (m : Machine) → (part env m).1.files q ≡ m.files q

module _ {ℓ κ} {A : Type ℓ} {B : Type κ} (env : Platform) (q : AbsolutePath) where
  continue-Keeps :
      (r : Result A) (f : A → Action B) (m : Machine)
      → ((a : A) → Keeps env q (f a))
      → (continue r f env m).1.files q ≡ m.files q
  continue-Keeps (ok a) f m k = (k a).at m
  continue-Keeps (failed e) f m k = refl
  continue-Keeps (value_error text) f m k = refl
  continue-Keeps crash f m k = refl
  continue-Keeps exhausted f m k = refl

  pub bind-Keeps :
      (part : Action A) (f : A → Action B)
      → Keeps env q part
      → ((a : A) → Keeps env q (f a))
      → Keeps env q (part >>= f)
  bind-Keeps part f h k = record {
    at = λ m. let (r, m') = part env m in continue-Keeps r f m' k ∙ h.at m;
  }

module _ (env : Platform) (q : AbsolutePath) where
  pub raise_if-Keeps : (b : Bool) (e : CommandFailure) → Keeps env q (raise_if b e)
  raise_if-Keeps b e = record { at = λ m. refl }

  pub read_text-Keeps : (path : AbsolutePath) → Keeps env q (read_text path)
  read_text-Keeps path = record { at = λ m. ground arith }

  pub mkdir-Keeps : (path : AbsolutePath) → is_at_or_above q path ≡ false → Keeps env q (mkdir path)
  mkdir-Keeps path h = record { at = λ m. ground (arith, h) }

  pub mkdir_new-Keeps :
      (path : AbsolutePath) → is_at_or_above q path ≡ false → Keeps env q (mkdir_new path)
  mkdir_new-Keeps path h = record { at = λ m. ground (arith, h) }

  pub rmtree-Keeps :
      (path : AbsolutePath) → is_at_or_above path q ≡ false → Keeps env q (rmtree path)
  rmtree-Keeps path h = record { at = λ m. rw h refl }

  pub unlink-Keeps :
      (path : AbsolutePath) → is_at_or_above path q ≡ false → Keeps env q (unlink_if_there path)
  unlink-Keeps path h = record { at = λ m. ground (arith, h) }

  pub write_text-Keeps :
      (path : AbsolutePath) (text : String)
      → same_path path q ≡ false
      → Keeps env q (write_text path text)
  write_text-Keeps path text h = record { at = λ m. ground (arith, h) }

  pub if-Keeps {ℓ} :
      {A : Type ℓ} (b : Bool) (p r : Action A)
      → Keeps env q p
      → Keeps env q r
      → Keeps env q (if b then p else r)
  if-Keeps true p r h k = h
  if-Keeps false p r h k = k

  pub pure-Keeps {ℓ} : {A : Type ℓ} (a : A) → Keeps env q (pure a)
  pure-Keeps a = record { at = λ m. refl }

  pub or_key_error-Keeps {ℓ} : {A : Type ℓ} (o : Option A) → Keeps env q (or_key_error o)
  or_key_error-Keeps none = record { at = λ m. refl }
  or_key_error-Keeps (some a) = record { at = λ m. refl }

completed_files :
    (command : List String) (end : CommandEnd) (env : Platform) (m : Machine)
    → (completed command end env m).1.files ≡ m.files
completed_files command (finished result) env m = refl
completed_files command file_not_found env m = refl
completed_files command other_os_error env m = refl
completed_files command (not_text text) env m = refl

other_names :
    (place : Place)
    → ((name_of place == ".run") ≡ false)
      × ((name_of place == "logs") ≡ false)
      × ((name_of place == ".staging") ≡ false)
      × ((name_of place == ".previous") ≡ false)
      × ((".staging" == name_of place) ≡ false)
other_names checkout_place = (refl, refl, refl, refl, refl)
other_names venv_place = (refl, refl, refl, refl, refl)
other_names manifest_place = (refl, refl, refl, refl, refl)
other_names lock_place = (refl, refl, refl, refl, refl)

-- The directories of the instance are not at or below what is followed.
module _ (root : AbsolutePath) (place : Place) (rest : AbsolutePath) (env : Platform) where
  abbrev pub spot : AbsolutePath
  spot = root ++ name_of place ∷ rest

  not_above :
      (name : String)
      → (name_of place == name) ≡ false
      → is_at_or_above spot (child root name) ≡ false
  not_above name h =
      is_at_or_above-under root (name_of place ∷ rest) (name ∷ []) ∙ ground (arith, h)

  pub mkdir_entry :
      (name : String) → (name_of place == name) ≡ false → Keeps env spot (mkdir (child root name))
  mkdir_entry name h = mkdir-Keeps env spot (child root name) (not_above name h)

  pub make_instance_dirs-Keeps : Keeps env spot (make_instance_dirs (layout root))
  unfolding make_instance_dirs
  make_instance_dirs-Keeps =
      let n = other_names place in
      bind-Keeps env spot (mkdir root) _
        (mkdir-Keeps env spot root (is_at_or_above-above root (name_of place) rest))
        λ _. bind-Keeps env spot (mkdir (child root ".run")) _ (mkdir_entry ".run" n.0) λ _.
          bind-Keeps env spot (mkdir (child root "logs")) _ (mkdir_entry "logs" n.1) λ _.
            bind-Keeps env spot (mkdir (child root ".staging")) _ (mkdir_entry ".staging" n.2)
              λ _. mkdir_entry ".previous" n.3

  pub not_staged : is_at_or_above (child root ".staging") spot ≡ false
  not_staged =
      is_at_or_above-under root (".staging" ∷ []) (name_of place ∷ rest)
      ∙ ground (arith, (other_names place).4)

  module _ (confined : Confined env root) where
    pub command-Keeps :
        (command : List String) (cwd : Option AbsolutePath)
        → Keeps env spot (run_command command cwd)
    unfolding run_command
    command-Keeps command cwd = record {
      at = λ m.
          let (end, files) = env.command m.tick command cwd m.files in
          ap (λ f. f spot)
            (completed_files command end env (record (passed env m) { files = files }))
          ∙ confined.kept m.tick command cwd m.files spot
              (is_at_or_above-append root (name_of place ∷ rest)) not_staged;
    }

    -- A command, and what follows
    pub then_Keeps :
        {A : Type 0} (command : List String) (cwd : Option AbsolutePath) (f : Completed → Action A)
        → ((result : Completed) → Keeps env spot (f result))
        → Keeps env spot (run_command command cwd >>= f)
    then_Keeps command cwd f h =
        bind-Keeps env spot (run_command command cwd) f (command-Keeps command cwd) h

    pub checked_Keeps :
        {A : Type 0} (fails : Bool) (e : CommandFailure) (next : Action A)
        → Keeps env spot next
        → Keeps env spot (raise_if fails e >> next)
    checked_Keeps fails e next h =
        bind-Keeps env spot (raise_if fails e) _ (raise_if-Keeps env spot fails e) λ _. h

    -- Paths below the new directory in the staging directory
    module _ (s : String) where
      abbrev pub staging_root : AbsolutePath
      staging_root = child (child root ".staging") s

      staged_path : (p : AbsolutePath) → staging_root ++ p ≡ root ++ ".staging" ∷ s ∷ p
      staged_path p =
          ap (λ a. a ++ p) (append_assoc root (".staging" ∷ []) (s ∷ []))
          ∙ append_assoc root (".staging" ∷ s ∷ []) p

      pub not_below : (p : AbsolutePath) → is_at_or_above (staging_root ++ p) spot ≡ false
      not_below p =
          ap (λ a. is_at_or_above a spot) (staged_path p)
          ∙ is_at_or_above-under root (".staging" ∷ s ∷ p) (name_of place ∷ rest)
          ∙ ground (arith, (other_names place).4)

      pub not_same : (p : AbsolutePath) → same_path (staging_root ++ p) spot ≡ false
      not_same p =
          ap (λ a. same_path a spot) (staged_path p)
          ∙ same_path-under root (".staging" ∷ s ∷ p) (name_of place ∷ rest)
          ∙ ground (arith, (other_names place).4)

      pub not_above_staging : is_at_or_above spot staging_root ≡ false
      not_above_staging =
          ap (λ a. is_at_or_above spot a) (append_assoc root (".staging" ∷ []) (s ∷ []))
          ∙ is_at_or_above-under root (name_of place ∷ rest) (".staging" ∷ s ∷ [])
          ∙ ground (arith, (other_names place).2)
