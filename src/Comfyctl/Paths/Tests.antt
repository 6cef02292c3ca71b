-- ===== src/Comfyctl/Paths/Tests.antt =====
-- Slugs and the paths of an instance at concrete inputs.
use comfy_shell_v.Prelude.{String, true, false, ◌≡◌, refl, some, [], ◌∷◌}
use comfy_shell_v.Comfyctl.Paths.{
  FileSystem, AbsolutePath, valid, is_slug, instance_paths, layout, comfy_paths, ComfyPaths,
}
use comfy_shell_v.Comfyctl.Paths.Within.{
  AllWithin, instance_paths-AllWithin, instance_paths_injective,
}

run_slugs :
    (is_slug "comfy-1.0_a" ≡ true)
    × (is_slug "" ≡ false)
    × (is_slug ".." ≡ false)
    × (is_slug "-a" ≡ false)
    × (is_slug "a/b" ≡ false)
run_slugs = (refl, refl, refl, refl, refl)

abbrev plain : FileSystem
plain = record { expanded = λ s. some (s ∷ []); resolve = λ p. p }

abbrev root : AbsolutePath
root = "data" ∷ "ComfyUI-Installs" ∷ "one" ∷ []

run_one : instance_paths plain "data" "one" ≡ valid (layout root)
unfolding instance_paths
run_one = refl

instance_paths-AllWithin_example :
    (is_slug "one" ≡ true)
    × ((paths : ComfyPaths) × (comfy_paths plain "data" ≡ valid paths)
        × AllWithin paths.installs_dir (layout root))
instance_paths-AllWithin_example = instance_paths-AllWithin plain "data" "one" (layout root) run_one

abbrev one : String
one = "one"

instance_paths_injective_example : one ≡ one
instance_paths_injective_example =
    instance_paths_injective plain "data" "one" "one" (layout root) (layout root) (λ p. refl)
      run_one run_one refl
