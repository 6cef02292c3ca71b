-- ===== src/Comfyctl/Install/Outcome.antt =====
-- The parts of `command_instance_install` of comfyctl/cli.py that raise nothing that `main` reports.
pub mod Failing
pub mod Kept
pub mod Lock
pub mod Locked
use comfy_shell_v.Prelude.{
  ℕ, String, Bool, true, false, not, ◌≡◌, ◌≢◌, refl, ◌∙◌, sym, ap, subst, arith, Option, none, some,
  List, [], ◌∷◌, ◌++◌, ◌==◌, elem, ⊤, if◌then◌else◌,
}
use comfy_shell_v.Prelude.Json.{Json, Fields}
use comfy_shell_v.Prelude.Decimal.{show_ℕ}
use comfy_shell_v.Comfyctl.Catalog.{Catalog, supported_torch_profiles}
use comfy_shell_v.Comfyctl.Paths.{
  AbsolutePath, InstancePaths, Checked, valid, value_error as not_valid, layout, child,
  is_at_or_above, instance_paths,
}
use comfy_shell_v.Comfyctl.Machine.{
  Platform, Machine, Result, ok, failed, value_error, crash, exhausted, Action, continue,
  finally_do, same_path, pure, raise_if, ask, path_exists, write_text, mkdir_new, shutil_move,
  rmtree, unlink_if_there, success, ◌>>=◌, ◌>>◌,
}
use comfy_shell_v.Comfyctl.Machine.Under.{is_at_or_above-under, same_path-under}
use comfy_shell_v.Comfyctl.Tools.{
  unique_name, require_tool, write_manifest, instance_paths_of, ensure_instance_dirs,
  make_instance_dirs, checked,
}
use comfy_shell_v.Comfyctl.Install.Prepare.{InstallArgs, Prepared, prepare}
use comfy_shell_v.Comfyctl.Install.Promote.{
  move_if_there, move_rest_away, move_away, move_staged, promote_by, promote_install,
}
use comfy_shell_v.Comfyctl.Install.{
  publish, staged, clean_up, under_lock, check_install, command_instance_install, manifest_of,
  install_payload,
}
use comfy_shell_v.Comfyctl.Install.Keeps.{
  Place, checkout_place, venv_place, manifest_place, lock_place, name_of, Confined, Keeps,
  bind-Keeps, raise_if-Keeps, rmtree-Keeps, unlink-Keeps, write_text-Keeps, pure-Keeps, spot,
  make_instance_dirs-Keeps, not_below,
}
use comfy_shell_v.Comfyctl.Install.Keeps.Staging.{prepare-Keeps}

-- A CommandFailure or a ValueError, which `main` reports
abbrev pub is_reported {ℓ} : {A : Type ℓ} → Result A → Bool
is_reported (failed e) = true
is_reported (value_error text) = true
is_reported _ = false

-- A part that returns or crashes
pub record Unfailing {ℓ} {A : Type ℓ} (part : Action A) : Type ℓ where
  pub at : (env : Platform) (m : Machine) → is_reported (part env m).0 ≡ false

module _ {ℓ κ} {A : Type ℓ} {B : Type κ} where
  continue-Unfailing :
      (r : Result A) (f : A → Action B) (env : Platform) (m : Machine)
      → is_reported r ≡ false
      → ((a : A) → is_reported (f a env m).0 ≡ false)
      → is_reported (continue r f env m).0 ≡ false
  continue-Unfailing (ok a) f env m h k = k a
  continue-Unfailing (failed e) f env m h k = h
  continue-Unfailing (value_error text) f env m h k = h
  continue-Unfailing crash f env m h k = refl
  continue-Unfailing exhausted f env m h k = refl

  bind-Unfailing :
      (part : Action A) (f : A → Action B)
      → Unfailing part
      → ((a : A) → Unfailing (f a))
      → Unfailing (part >>= f)
  bind-Unfailing part f h k = record {
    at = λ env m.
        let (r, m') = part env m in
        continue-Unfailing r f env m' (h.at env m) (λ a. (k a).at env m');
  }

mkdir_new-Unfailing : (path : AbsolutePath) → Unfailing (mkdir_new path)
mkdir_new-Unfailing path = record { at = λ env m. ground arith }

shutil_move-Unfailing : (source target : AbsolutePath) → Unfailing (shutil_move source target)
shutil_move-Unfailing source target = record { at = λ env m. ground arith }

move_if_there-Unfailing : (source target : AbsolutePath) → Unfailing (move_if_there source target)
unfolding move_if_there
move_if_there-Unfailing source target = record { at = λ env m. ground arith }

move_away-Unfailing :
    (paths : InstancePaths) (previous : AbsolutePath) → Unfailing (move_away paths previous)
unfolding move_away
move_away-Unfailing paths previous =
    bind-Unfailing (move_if_there paths.checkout (child previous "ComfyUI")) _
      (move_if_there-Unfailing paths.checkout _)
      λ _.
        bind-Unfailing (move_if_there paths.venv (child previous ".venv")) _
          (move_if_there-Unfailing paths.venv _)
          λ _. move_if_there-Unfailing paths.manifest (child previous "manifest.json")

promote_install-Unfailing :
    (paths : InstancePaths) (checkout venv : AbsolutePath)
    → Unfailing (promote_install paths checkout venv)
unfolding promote_install
promote_install-Unfailing paths checkout venv =
    bind-Unfailing (unique_name "install") _ (record { at = λ env m. unfold unique_name in refl })
      λ name.
        bind-Unfailing (mkdir_new (child paths.previous_dir name)) _ (mkdir_new-Unfailing _) λ _.
          bind-Unfailing (move_away paths (child paths.previous_dir name)) _
            (move_away-Unfailing paths _)
            λ _.
              bind-Unfailing (shutil_move checkout paths.checkout) _
                (shutil_move-Unfailing checkout _) λ _. shutil_move-Unfailing venv paths.venv

write_manifest-Unfailing :
    (path : AbsolutePath) (payload : Json) → Unfailing (write_manifest path payload)
unfolding write_manifest
write_manifest-Unfailing path payload = record { at = λ env m. ground arith }

success-Unfailing : (payload : Fields) → Unfailing (success payload)
unfolding success
success-Unfailing payload = record { at = λ env m. refl }

pub publish-Unfailing :
    (args : InstallArgs) (paths : InstancePaths) (staging_root : AbsolutePath) (prepared : Prepared)
    → Unfailing (publish args paths staging_root prepared)
unfolding publish
publish-Unfailing args paths staging_root prepared =
    bind-Unfailing
      (promote_install paths (child staging_root "ComfyUI") (child staging_root ".venv")) _
      (promote_install-Unfailing paths (child staging_root "ComfyUI") (child staging_root ".venv"))
      λ _.
        bind-Unfailing (ask (λ env t. env.utc_now t)) _ (record { at = λ env m. refl })
          λ created_at.
            bind-Unfailing (write_manifest paths.manifest (manifest_of args prepared created_at)) _
              (write_manifest-Unfailing paths.manifest _)
              λ _. success-Unfailing (install_payload args paths prepared)
