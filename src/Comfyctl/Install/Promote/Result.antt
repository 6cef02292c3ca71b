-- ===== src/Comfyctl/Install/Promote/Result.antt =====
-- What stands where, once `promote_install` of comfyctl/cli.py has returned.
use comfy_shell_v.Prelude.{String, true, ◌≡◌, ◌∙◌, sym, ap, [], ◌∷◌, ◌++◌, ⊤}
use comfy_shell_v.Comfyctl.Paths.{AbsolutePath, layout, child}
use comfy_shell_v.Comfyctl.Machine.FileTree.{Files, exists}
use comfy_shell_v.Comfyctl.Machine.{Platform, Machine, ok}
use comfy_shell_v.Comfyctl.Machine.Under.{under}
use comfy_shell_v.Comfyctl.Tools.{unique_name}
use comfy_shell_v.Comfyctl.Contract.{bind-returns}
use comfy_shell_v.Comfyctl.Install.Promote.{promote_by, promote_install}
use comfy_shell_v.Comfyctl.Install.Promote.Moves.{
  IsTree, promoted, new_checkout, new_venv, old_checkout, old_venv, old_manifest,
}
use comfy_shell_v.Comfyctl.Install.Promote.Steps.{promote_by-promoted}

-- The places of an installation that has been replaced
pub record Replaced (root : AbsolutePath) (s : String) (before after : Files) : Type 0 where
  pub previous : String
  pub checkout :
      (rest : AbsolutePath)
      → after (root ++ "ComfyUI" ∷ rest) ≡ before (root ++ ".staging" ∷ s ∷ "ComfyUI" ∷ rest)
  pub venv :
      (rest : AbsolutePath)
      → after (root ++ ".venv" ∷ rest) ≡ before (root ++ ".staging" ∷ s ∷ ".venv" ∷ rest)
  pub old_checkout :
      (rest : AbsolutePath)
      → exists before (root ++ "ComfyUI" ∷ []) ≡ true
      → after (root ++ ".previous" ∷ previous ∷ "ComfyUI" ∷ rest)
        ≡ before (root ++ "ComfyUI" ∷ rest)
  pub old_venv :
      (rest : AbsolutePath)
      → exists before (root ++ ".venv" ∷ []) ≡ true
      → after (root ++ ".previous" ∷ previous ∷ ".venv" ∷ rest) ≡ before (root ++ ".venv" ∷ rest)
  pub old_manifest :
      exists before (root ++ "manifest.json" ∷ []) ≡ true
      → after (root ++ ".previous" ∷ previous ∷ "manifest.json" ∷ [])
        ≡ before (root ++ "manifest.json" ∷ [])

replaced :
    (root : AbsolutePath) (s p : String) (before after : Files)
    → under root after ≡ promoted p s (under root before)
    → Replaced root s before after
replaced root s p before after e = record {
  previous = p;
  checkout = λ rest. ap (λ f. f ("ComfyUI" ∷ rest)) e ∙ new_checkout p s (under root before) rest;
  venv = λ rest. ap (λ f. f (".venv" ∷ rest)) e ∙ new_venv p s (under root before) rest;
  old_checkout = λ rest h.
      ap (λ f. f (".previous" ∷ p ∷ "ComfyUI" ∷ rest)) e
      ∙ old_checkout p s (under root before) rest h;
  old_venv = λ rest h.
      ap (λ f. f (".previous" ∷ p ∷ ".venv" ∷ rest)) e ∙ old_venv p s (under root before) rest h;
  old_manifest = λ h.
      ap (λ f. f (".previous" ∷ p ∷ "manifest.json" ∷ [])) e
      ∙ old_manifest p s (under root before) h;
}

-- Where nothing stands below what is missing, a promotion from a directory of .staging that
-- returns has put the staged checkout and virtual environment, whole, in the place of the old
-- ones, and has put what was there of the old checkout, virtual environment and manifest
-- below a directory of .previous.
pub promote_install-Replaced :
    (root : AbsolutePath) (s : String) (env : Platform) (m : Machine) (u : ⊤)
    → IsTree m.files
    → let staging_root = child (layout root).staging_dir s in
      let (r, m') =
        promote_install
          (layout root)
          (child staging_root "ComfyUI")
          (child staging_root ".venv")
          env
          m in
      r ≡ ok u → Replaced root s m.files m'.files
unfolding promote_install
promote_install-Replaced root s env m u tree h =
    let staging_root = child (layout root).staging_dir s in
    let by = λ (p : String).
      promote_by (layout root) (child staging_root "ComfyUI") (child staging_root ".venv")
        (child (layout root).previous_dir p) in
    let (p, _, same) = bind-returns (unique_name "install") by env m u h in
    let m1 = (unique_name "install" env m).1 in
    replaced root s p m.files _ (
      ap (λ r. under root r.1.files) same
      ∙ promote_by-promoted root s env p m1 u tree (sym (ap (λ r. r.0) same) ∙ h))
