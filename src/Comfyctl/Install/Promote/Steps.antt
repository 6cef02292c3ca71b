-- ===== src/Comfyctl/Install/Promote/Steps.antt =====
-- The moves of `promote_install` of comfyctl/cli.py, one after the other.
use mathlib.Core.List.{append_assoc}
use comfy_shell_v.Prelude.{String, false, ◌≡◌, refl, ◌∙◌, sym, ap, none, [], ◌∷◌, ◌++◌, ⊤}
use comfy_shell_v.Comfyctl.Paths.{AbsolutePath, layout, child}
use comfy_shell_v.Comfyctl.Machine.FileTree.{Files, exists, is_dir, moved}
use comfy_shell_v.Comfyctl.Machine.{Platform, Machine, ok, mkdir_new, shutil_move, ◌>>◌}
use comfy_shell_v.Comfyctl.Machine.Under.{under, moved_if, moved_at, moved_if_at, with_dir_at}
use comfy_shell_v.Comfyctl.Contract.{bind-returns}
use comfy_shell_v.Comfyctl.Install.Promote.{
  move_if_there, move_away, move_rest_away, move_staged, promote_by,
}
use comfy_shell_v.Comfyctl.Install.Promote.Moves.{
  IsTree, mkdir_new-ok, shutil_move-ok, move_if_there-ok, made, without_checkout, without_venv,
  emptied, with_checkout, promoted, free_checkout, free_venv, free_previous_checkout,
  free_previous_venv, free_previous_manifest,
}

module _ (root source target s t : AbsolutePath) (files : Files) (env : Platform) (m : Machine)
    (u : ⊤) (at_source : source ≡ root ++ s) (at_target : target ≡ root ++ t)
    (here : under root m.files ≡ files) (is_free : is_dir files t ≡ false) where
  target_is_free : is_dir m.files target ≡ false
  target_is_free = ap (λ a. is_dir m.files a) at_target ∙ ap (λ f. is_dir f t) here ∙ is_free

  if_there_at :
      (move_if_there source target env m).0 ≡ ok u
      → under root (move_if_there source target env m).1.files ≡ moved_if s t files
  if_there_at h =
      ap (under root) (move_if_there-ok source target env m u target_is_free h)
      ∙ moved_if_at root source target s t m.files at_source at_target
      ∙ ap (moved_if s t) here

  move_at :
      (shutil_move source target env m).0 ≡ ok u
      → under root (shutil_move source target env m).1.files ≡ moved s t files
  move_at h =
      ap (under root) (shutil_move-ok source target env m u target_is_free h)
      ∙ moved_at root source target s t m.files at_source at_target
      ∙ ap (moved s t) here

-- `path / a / b` and `path / a / b / c`
child-child : (root : AbsolutePath) (a b : String) → child (child root a) b ≡ root ++ a ∷ b ∷ []
child-child root a b = append_assoc root (a ∷ []) (b ∷ [])

child-child-child :
    (root : AbsolutePath) (a b c : String)
    → child (child (child root a) b) c ≡ root ++ a ∷ b ∷ c ∷ []
child-child-child root a b c =
    ap (λ path. child path c) (child-child root a b) ∙ append_assoc root (a ∷ b ∷ []) (c ∷ [])

module _ (root : AbsolutePath) (s : String) (env : Platform) where
  abbrev staged_at : String → AbsolutePath
  staged_at name = child (child (layout root).staging_dir s) name

  abbrev previous : String → AbsolutePath
  previous p = child (layout root).previous_dir p

  move_staged-promoted :
      (p : String) (files : Files) (m : Machine) (u : ⊤)
      → under root m.files ≡ emptied p s files
      → (move_staged (layout root) (staged_at "ComfyUI") (staged_at ".venv") env m).0 ≡ ok u
      → under root
          (move_staged (layout root) (staged_at "ComfyUI") (staged_at ".venv") env m).1.files
        ≡ promoted p s files
  move_staged-promoted p files m u e h =
      let checkout = shutil_move (staged_at "ComfyUI") (layout root).checkout in
      let venv = shutil_move (staged_at ".venv") (layout root).venv in
      let (u1, done, same) = bind-returns checkout (λ _. venv) env m u h in
      let m1 = (checkout env m).1 in
      let e1 =
        move_at root (staged_at "ComfyUI") (layout root).checkout (".staging" ∷ s ∷ "ComfyUI" ∷ [])
          ("ComfyUI" ∷ []) (emptied p s files) env m u1
          (child-child-child root ".staging" s "ComfyUI") refl e (free_checkout p s files) done in
      ap (λ r. under root r.1.files) same
      ∙ move_at root (staged_at ".venv") (layout root).venv (".staging" ∷ s ∷ ".venv" ∷ [])
          (".venv" ∷ []) (with_checkout p s files) env m1 u
          (child-child-child root ".staging" s ".venv") refl e1 (free_venv p s files)
          (sym (ap (λ r. r.0) same) ∙ h)

  -- Nothing stands at the paths of the new directory of previous installs.
  abbrev Free : String → Files → Type 0
  Free p files =
      (files (".previous" ∷ p ∷ "ComfyUI" ∷ []) ≡ none)
      × (files (".previous" ∷ p ∷ ".venv" ∷ []) ≡ none)
      × (files (".previous" ∷ p ∷ "manifest.json" ∷ []) ≡ none)

  at_previous : (p name : String) → child (previous p) name ≡ root ++ ".previous" ∷ p ∷ name ∷ []
  at_previous p name = child-child-child root ".previous" p name

  move_rest_away-emptied :
      (p : String) (files : Files) (m : Machine) (u : ⊤)
      → Free p files
      → under root m.files ≡ without_checkout p s files
      → (move_rest_away (layout root) (previous p) env m).0 ≡ ok u
      → under root (move_rest_away (layout root) (previous p) env m).1.files ≡ emptied p s files
  move_rest_away-emptied p files m u free e h =
      let venv = move_if_there (layout root).venv (child (previous p) ".venv") in
      let manifest = move_if_there (layout root).manifest (child (previous p) "manifest.json") in
      let (u1, done, same) = bind-returns venv (λ _. manifest) env m u h in
      let m1 = (venv env m).1 in
      let e1 =
        if_there_at root (layout root).venv (child (previous p) ".venv") (".venv" ∷ [])
          (".previous" ∷ p ∷ ".venv" ∷ []) (without_checkout p s files) env m u1 refl
          (at_previous p ".venv") e (free_previous_venv p s files free.1) done in
      ap (λ r. under root r.1.files) same
      ∙ if_there_at root (layout root).manifest (child (previous p) "manifest.json")
          ("manifest.json" ∷ []) (".previous" ∷ p ∷ "manifest.json" ∷ []) (without_venv p s files)
          env m1 u refl (at_previous p "manifest.json") e1 (free_previous_manifest p s files free.2)
          (sym (ap (λ r. r.0) same) ∙ h)

  move_away-emptied :
      (p : String) (files : Files) (m : Machine) (u : ⊤)
      → Free p files
      → under root m.files ≡ made p s files
      → (move_away (layout root) (previous p) env m).0 ≡ ok u
      → under root (move_away (layout root) (previous p) env m).1.files ≡ emptied p s files
  unfolding move_away
  move_away-emptied p files m u free e h =
      let checkout = move_if_there (layout root).checkout (child (previous p) "ComfyUI") in
      let (u1, done, same) =
        bind-returns checkout (λ _. move_rest_away (layout root) (previous p)) env m u h in
      let m1 = (checkout env m).1 in
      let e1 =
        if_there_at root (layout root).checkout (child (previous p) "ComfyUI") ("ComfyUI" ∷ [])
          (".previous" ∷ p ∷ "ComfyUI" ∷ []) (made p s files) env m u1 refl
          (at_previous p "ComfyUI") e (free_previous_checkout p s files free.0) done in
      ap (λ r. under root r.1.files) same
      ∙ move_rest_away-emptied p files m1 u free e1 (sym (ap (λ r. r.0) same) ∙ h)

  nothing_below :
      (p : String) (files : Files)
      → IsTree files
      → exists files (previous p) ≡ false
      → Free p (under root files)
  nothing_below p files tree h = (at "ComfyUI", at ".venv", at "manifest.json")
    where
      at : (name : String) → under root files (".previous" ∷ p ∷ name ∷ []) ≡ none
      at name = ap files (sym (at_previous p name)) ∙ tree.parents (previous p) name h

  pub promote_by-promoted :
      (p : String) (m : Machine) (u : ⊤)
      → IsTree m.files
      → (promote_by (layout root) (staged_at "ComfyUI") (staged_at ".venv") (previous p) env m).0
        ≡ ok u
      → under root
          (promote_by
            (layout root)
            (staged_at "ComfyUI")
            (staged_at ".venv")
            (previous p)
            env
            m).1.files
        ≡ promoted p s (under root m.files)
  promote_by-promoted p m u tree h =
      let last = move_staged (layout root) (staged_at "ComfyUI") (staged_at ".venv") in
      let away = move_away (layout root) (previous p) in
      let files = under root m.files in
      let (u1, done1, same1) =
        bind-returns (mkdir_new (previous p)) (λ _. away >> last) env m u h in
      let m1 = (mkdir_new (previous p) env m).1 in
      let (is_made, was_free) = mkdir_new-ok (previous p) env m u1 done1 in
      let free = nothing_below p m.files tree was_free in
      let e1 =
        ap (under root) is_made
        ∙ with_dir_at root (previous p) (".previous" ∷ p ∷ []) m.files
            (child-child root ".previous" p) in
      let (u2, done2, same2) =
        bind-returns away (λ _. last) env m1 u (sym (ap (λ r. r.0) same1) ∙ h) in
      let e2 = move_away-emptied p files m1 u2 free e1 done2 in
      let m2 = (away env m1).1 in
      ap (λ r. under root r.1.files) (same1 ∙ same2)
      ∙ move_staged-promoted p files m2 u e2 (sym (ap (λ r. r.0) (same1 ∙ same2)) ∙ h)
