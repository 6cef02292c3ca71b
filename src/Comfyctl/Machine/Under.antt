-- ===== src/Comfyctl/Machine/Under.antt =====
-- The files below one directory, by their paths relative to it.
use mathlib.Core.List.{append_assoc}
use mathlib.Core.Path.{fun_ext}
use comfy_shell_v.Prelude.{
  String, true, false, not, ◌&&◌, ◌≡◌, refl, ◌∙◌, ap, arith, Option, none, some, [], ◌∷◌, ◌++◌,
  eq_refl, Bool-cases, inl, inr, subst, if◌then◌else◌,
}
use comfy_shell_v.Comfyctl.Paths.{AbsolutePath, is_at_or_above}
use comfy_shell_v.Comfyctl.Machine.FileTree.{
  Files, Node, directory, exists, below, same_path, written, with_dir, moved, relocated,
}

-- The paths of the tests, below a common directory
pub is_at_or_above-under :
    (root p q : AbsolutePath) → is_at_or_above (root ++ p) (root ++ q) ≡ is_at_or_above p q
is_at_or_above-under [] p q = refl
is_at_or_above-under (n ∷ root) p q = ground (arith, eq_refl n, is_at_or_above-under root p q)

pub is_at_or_above-above :
    (root : AbsolutePath) (n : String) (p : AbsolutePath)
    → is_at_or_above (root ++ n ∷ p) root ≡ false
is_at_or_above-above [] n p = refl
is_at_or_above-above (k ∷ root) n p = ground (arith, is_at_or_above-above root n p)

pub same_path-under : (root p q : AbsolutePath) → same_path (root ++ p) (root ++ q) ≡ same_path p q
same_path-under [] p q = refl
same_path-under (n ∷ root) p q = ground (arith, eq_refl n, same_path-under root p q)

pub below-under : (root p q : AbsolutePath) → below (root ++ p) (root ++ q) ≡ below p q
below-under [] p q = refl
below-under (n ∷ root) p q = ground (arith, eq_refl n, below-under root p q)

pub is_at_or_above-append : (p rest : AbsolutePath) → is_at_or_above p (p ++ rest) ≡ true
is_at_or_above-append [] rest = refl
is_at_or_above-append (n ∷ p) rest = ground (arith, eq_refl n, is_at_or_above-append p rest)

-- The files below `root`
abbrev pub under : AbsolutePath → Files → Files
under root files p = files (root ++ p)

relocated-under :
    (root source : AbsolutePath) (rest : Option AbsolutePath) (files : Files) (q : AbsolutePath)
    → relocated (root ++ source) rest files (root ++ q) ≡ relocated source rest (under root files) q
relocated-under root source none files q = rw (is_at_or_above-under root source q) refl
relocated-under root source (some rest) files q = ap files (append_assoc root source rest)

pub moved-under :
    (root source target : AbsolutePath) (files : Files) (q : AbsolutePath)
    → moved (root ++ source) (root ++ target) files (root ++ q)
      ≡ moved source target (under root files) q
moved-under root source target files q =
    ap (λ rest. relocated (root ++ source) rest files (root ++ q)) (below-under root target q)
    ∙ relocated-under root source (below target q) files q

pub written-under :
    (root path : AbsolutePath) (node : Node) (files : Files) (q : AbsolutePath)
    → written (root ++ path) node files (root ++ q) ≡ written path node (under root files) q
written-under root path node files q =
    ap (λ same. if same then some node else files (root ++ q)) (same_path-under root path q)

pub with_dir-under :
    (root path : AbsolutePath) (files : Files) (q : AbsolutePath)
    → with_dir (root ++ path) files (root ++ q) ≡ with_dir path (under root files) q
with_dir-under root path files q =
    ap
      (λ above.
        if above && not (exists files (root ++ q)) then some directory else files (root ++ q))
      (is_at_or_above-under root q path)

-- The rename, where the source stands
abbrev pub moved_if : AbsolutePath → AbsolutePath → Files → Files
moved_if source target files = if exists files source then moved source target files else files

pub moved_at :
    (root source target s t : AbsolutePath) (files : Files)
    → source ≡ root ++ s
    → target ≡ root ++ t
    → under root (moved source target files) ≡ moved s t (under root files)
moved_at root source target s t files p q =
    ap (λ a. under root (moved a target files)) p
    ∙ ap (λ b. under root (moved (root ++ s) b files)) q
    ∙ fun_ext (moved-under root s t files)

pub moved_if_at :
    (root source target s t : AbsolutePath) (files : Files)
    → source ≡ root ++ s
    → target ≡ root ++ t
    → under root (moved_if source target files) ≡ moved_if s t (under root files)
moved_if_at root source target s t files p q = elim (Bool-cases (exists files source)) [
  | inl there ↦
      let there' : exists files (root ++ s) ≡ true = subst (λ a. exists files a ≡ true) p there in
      rw (there, there') (moved_at root source target s t files p q)
  | inr gone ↦
      let gone' : exists files (root ++ s) ≡ false = subst (λ a. exists files a ≡ false) p gone in
      rw (gone, gone') refl
]

pub with_dir_at :
    (root path p : AbsolutePath) (files : Files)
    → path ≡ root ++ p
    → under root (with_dir path files) ≡ with_dir p (under root files)
with_dir_at root path p files e =
    ap (λ a. under root (with_dir a files)) e ∙ fun_ext (with_dir-under root p files)
