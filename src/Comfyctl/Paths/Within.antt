-- ===== src/Comfyctl/Paths/Within.antt =====
-- Where the paths of an instance lie (`instance_paths` of comfyctl/paths.py).
use comfy_shell_v.Prelude.{
  String, true, ◌≡◌, refl, sym, ap, subst, ◌∙◌, arith, none, some, Option-cases, [], ◌∷◌, ◌++◌,
  Bool-cases, inl, inr,
}
use comfy_shell_v.Comfyctl.Paths.{
  AbsolutePath, FileSystem, valid, is_slug, validate_slug, resolve_data_root, comfy_paths,
  ComfyPaths, child, InstancePaths, is_at_or_above, paths_of, layout, place, instance_paths,
}

-- Each path of the instance is the directory or below it.
pub record AllWithin (dir : AbsolutePath) (p : InstancePaths) : Type 0 where
  pub root : is_at_or_above dir p.root ≡ true
  pub checkout : is_at_or_above dir p.checkout ≡ true
  pub venv : is_at_or_above dir p.venv ≡ true
  pub manifest : is_at_or_above dir p.manifest ≡ true
  pub extra_model_paths : is_at_or_above dir p.extra_model_paths ≡ true
  pub lock : is_at_or_above dir p.lock ≡ true
  pub run_dir : is_at_or_above dir p.run_dir ≡ true
  pub pid_file : is_at_or_above dir p.pid_file ≡ true
  pub logs_dir : is_at_or_above dir p.logs_dir ≡ true
  pub log_file : is_at_or_above dir p.log_file ≡ true
  pub staging_dir : is_at_or_above dir p.staging_dir ≡ true
  pub previous_dir : is_at_or_above dir p.previous_dir ≡ true

is_at_or_above-append :
    (dir path rest : AbsolutePath)
    → is_at_or_above dir path ≡ true
    → is_at_or_above dir (path ++ rest) ≡ true
is_at_or_above-append [] path rest h = refl
is_at_or_above-append (n ∷ dir) [] rest h = absurd (ground arith)
is_at_or_above-append (n ∷ dir) (m ∷ path) rest h =
    ground (arith, h, is_at_or_above-append dir path rest)

layout-AllWithin :
    (dir root : AbsolutePath) → is_at_or_above dir root ≡ true → AllWithin dir (layout root)
layout-AllWithin dir root h =
    let below : (name : String) → is_at_or_above dir (child root name) ≡ true =
      λ name. is_at_or_above-append dir root (name ∷ []) h in
    record {
      root = h;
      checkout = below "ComfyUI";
      venv = below ".venv";
      manifest = below "manifest.json";
      extra_model_paths = below "extra_model_paths.yaml";
      lock = below "instance.lock";
      run_dir = below ".run";
      pid_file = is_at_or_above-append dir (child root ".run") ("comfyui.pid" ∷ []) (below ".run");
      logs_dir = below "logs";
      log_file = is_at_or_above-append dir (child root "logs") ("comfyui.log" ∷ []) (below "logs");
      staging_dir = below ".staging";
      previous_dir = below ".previous";
    }

-- When instance_paths returns, the slug has the form that is asked for, the data root is absolute,
-- and every path of the instance is in the resolved directory of installs, also where the instance's
-- directory is a link.
pub instance_paths-AllWithin :
    (fs : FileSystem) (data_root slug : String) (p : InstancePaths)
    → instance_paths fs data_root slug ≡ valid p
    → (is_slug slug ≡ true)
      × ((paths : ComfyPaths) × (comfy_paths fs data_root ≡ valid paths)
          × AllWithin (fs.resolve paths.installs_dir) p)
unfolding instance_paths validate_slug comfy_paths resolve_data_root
instance_paths-AllWithin fs data_root slug p h =
    let good : is_slug slug ≡ true = ground (arith, h) in
    elim (Option-cases (fs.expanded data_root)) [
      | inl relative ↦ absurd (ground (arith, h, good))
      | inr (path, absolute) ↦
          let dir = fs.resolve (child (fs.resolve path) "ComfyUI-Installs") in
          let root = fs.resolve (child (child (fs.resolve path) "ComfyUI-Installs") slug) in
          elim (Bool-cases (is_at_or_above dir root)) [
            | inr outside ↦ absurd (ground (arith, h, good, absolute, outside))
            | inl inside ↦
                let same : layout root ≡ p = ground (arith, h, good, absolute, inside) in
                (
                  good,
                  (
                    paths_of (fs.resolve path),
                    ground (arith, absolute),
                    subst (AllWithin dir) same (layout-AllWithin dir root inside),
                  ),
                )
          ]
    ]

root_of_place :
    (dir root : AbsolutePath) (p : InstancePaths) → place dir root ≡ valid p → p.root ≡ root
root_of_place dir root p h = elim (Bool-cases (is_at_or_above dir root)) [
  | inr outside ↦ absurd (ground (arith, h, outside))
  | inl inside ↦
      let same : layout root ≡ p = ground (arith, h, inside) in ap (λ q. q.root) (sym same)
]

root_of_paths :
    (fs : FileSystem) (data_root slug : String) (p : InstancePaths) (path : AbsolutePath)
    → fs.expanded data_root ≡ some path
    → instance_paths fs data_root slug ≡ valid p
    → p.root ≡ fs.resolve (child (child (fs.resolve path) "ComfyUI-Installs") slug)
unfolding instance_paths validate_slug comfy_paths resolve_data_root
root_of_paths fs data_root slug p path absolute h =
    let good : is_slug slug ≡ true = ground (arith, h) in
    root_of_place (fs.resolve (child (fs.resolve path) "ComfyUI-Installs"))
      (fs.resolve (child (child (fs.resolve path) "ComfyUI-Installs") slug)) p
      (ground (arith, h, good, absolute))

relative_fails :
    (fs : FileSystem) (data_root slug : String) (p : InstancePaths)
    → fs.expanded data_root ≡ none
    → instance_paths fs data_root slug ≡ valid p
    → ⊥
unfolding instance_paths validate_slug comfy_paths resolve_data_root
relative_fails fs data_root slug p relative h =
    let good : is_slug slug ≡ true = ground (arith, h) in ground (arith, h, good, relative)

child-injective : (dir : AbsolutePath) (a b : String) → child dir a ≡ child dir b → a ≡ b
child-injective [] a b h = ground (arith, h)
child-injective (n ∷ dir) a b h = child-injective dir a b (ground (arith, h))

-- Without links, two instances of one data root that have the same directory have the same slug.
pub instance_paths_injective :
    (fs : FileSystem) (data_root slug slug' : String) (p p' : InstancePaths)
    → ((path : AbsolutePath) → fs.resolve path ≡ path)
    → instance_paths fs data_root slug ≡ valid p
    → instance_paths fs data_root slug' ≡ valid p'
    → p.root ≡ p'.root
    → slug ≡ slug'
instance_paths_injective fs data_root slug slug' p p' no_links h h' same =
    elim (Option-cases (fs.expanded data_root)) [
      | inl relative ↦ absurd (relative_fails fs data_root slug p relative h)
      | inr (path, absolute) ↦
          child-injective (child (fs.resolve path) "ComfyUI-Installs") slug slug' (
            sym (no_links _)
            ∙ sym (root_of_paths fs data_root slug p path absolute h)
            ∙ same
            ∙ root_of_paths fs data_root slug' p' path absolute h'
            ∙ no_links _)
    ]
