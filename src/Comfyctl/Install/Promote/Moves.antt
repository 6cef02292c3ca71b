-- ===== src/Comfyctl/Install/Promote/Moves.antt =====
-- Where `promote_install` of comfyctl/cli.py puts what it moves.
use comfy_shell_v.Prelude.{String, true, false, ◌≡◌, arith, none, [], ◌∷◌, ◌++◌, ⊤, eq_refl}
use comfy_shell_v.Comfyctl.Paths.{AbsolutePath}
use comfy_shell_v.Comfyctl.Machine.FileTree.{Files, exists, is_dir, with_dir, moved}
use comfy_shell_v.Comfyctl.Machine.{Platform, Machine, ok, mkdir_new, shutil_move}
use comfy_shell_v.Comfyctl.Machine.Under.{moved_if}
use comfy_shell_v.Comfyctl.Install.Promote.{move_if_there}

pub mkdir_new-ok :
    (path : AbsolutePath) (env : Platform) (m : Machine) (u : ⊤)
    → (mkdir_new path env m).0 ≡ ok u
    → ((mkdir_new path env m).1.files ≡ with_dir path m.files) × (exists m.files path ≡ false)
mkdir_new-ok path env m u h = (ground arith, ground arith)

pub shutil_move-ok :
    (source target : AbsolutePath) (env : Platform) (m : Machine) (u : ⊤)
    → is_dir m.files target ≡ false
    → (shutil_move source target env m).0 ≡ ok u
    → (shutil_move source target env m).1.files ≡ moved source target m.files
shutil_move-ok source target env m u h k = ground arith

pub move_if_there-ok :
    (source target : AbsolutePath) (env : Platform) (m : Machine) (u : ⊤)
    → is_dir m.files target ≡ false
    → (move_if_there source target env m).0 ≡ ok u
    → (move_if_there source target env m).1.files ≡ moved_if source target m.files
unfolding move_if_there
move_if_there-ok source target env m u h k = ground arith

-- Nothing stands below a path where nothing stands.
pub record IsTree (files : Files) : Type 0 where
  pub parents :
      (path : AbsolutePath) (name : String)
      → exists files path ≡ false
      → files (path ++ name ∷ []) ≡ none

-- The five moves, by paths relative to the instance's directory: `p` names the new directory below
-- .previous, `s` the one below .staging.
module _ (p s : String) (files : Files) where
  abbrev pub made : Files
  made = with_dir (".previous" ∷ p ∷ []) files

  abbrev pub without_checkout : Files
  without_checkout = moved_if ("ComfyUI" ∷ []) (".previous" ∷ p ∷ "ComfyUI" ∷ []) made

  abbrev pub without_venv : Files
  without_venv = moved_if (".venv" ∷ []) (".previous" ∷ p ∷ ".venv" ∷ []) without_checkout

  abbrev pub emptied : Files
  emptied = moved_if ("manifest.json" ∷ []) (".previous" ∷ p ∷ "manifest.json" ∷ []) without_venv

  abbrev pub with_checkout : Files
  with_checkout = moved (".staging" ∷ s ∷ "ComfyUI" ∷ []) ("ComfyUI" ∷ []) emptied

  abbrev pub promoted : Files
  promoted = moved (".staging" ∷ s ∷ ".venv" ∷ []) (".venv" ∷ []) with_checkout

  pub new_checkout :
      (rest : AbsolutePath)
      → promoted ("ComfyUI" ∷ rest) ≡ files (".staging" ∷ s ∷ "ComfyUI" ∷ rest)
  new_checkout rest = ground (arith, eq_refl p, eq_refl s)

  pub new_venv :
      (rest : AbsolutePath) → promoted (".venv" ∷ rest) ≡ files (".staging" ∷ s ∷ ".venv" ∷ rest)
  new_venv rest = ground (arith, eq_refl p, eq_refl s)

  pub old_checkout :
      (rest : AbsolutePath)
      → exists files ("ComfyUI" ∷ []) ≡ true
      → promoted (".previous" ∷ p ∷ "ComfyUI" ∷ rest) ≡ files ("ComfyUI" ∷ rest)
  old_checkout rest h = ground (arith, eq_refl p, eq_refl s)

  pub old_venv :
      (rest : AbsolutePath)
      → exists files (".venv" ∷ []) ≡ true
      → promoted (".previous" ∷ p ∷ ".venv" ∷ rest) ≡ files (".venv" ∷ rest)
  old_venv rest h = ground (arith, eq_refl p, eq_refl s)

  pub old_manifest :
      exists files ("manifest.json" ∷ []) ≡ true
      → promoted (".previous" ∷ p ∷ "manifest.json" ∷ []) ≡ files ("manifest.json" ∷ [])
  old_manifest h = ground (arith, eq_refl p, eq_refl s)

  pub free_checkout : is_dir emptied ("ComfyUI" ∷ []) ≡ false
  free_checkout = ground (arith, eq_refl p)

  pub free_venv : is_dir with_checkout (".venv" ∷ []) ≡ false
  free_venv = ground (arith, eq_refl p)

  module _ (no_checkout : files (".previous" ∷ p ∷ "ComfyUI" ∷ []) ≡ none) where
    pub free_previous_checkout : is_dir made (".previous" ∷ p ∷ "ComfyUI" ∷ []) ≡ false
    free_previous_checkout = ground (arith, eq_refl p)

  module _ (no_venv : files (".previous" ∷ p ∷ ".venv" ∷ []) ≡ none) where
    pub free_previous_venv : is_dir without_checkout (".previous" ∷ p ∷ ".venv" ∷ []) ≡ false
    free_previous_venv = ground (arith, eq_refl p)

  module _ (no_manifest : files (".previous" ∷ p ∷ "manifest.json" ∷ []) ≡ none) where
    pub free_previous_manifest :
        is_dir without_venv (".previous" ∷ p ∷ "manifest.json" ∷ []) ≡ false
    free_previous_manifest = ground (arith, eq_refl p)
