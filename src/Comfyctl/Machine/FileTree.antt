-- ===== src/Comfyctl/Machine/FileTree.antt =====
-- A file system without symbolic links: what stands at each path.
use comfy_shell_v.Prelude.{
  String, Bool, true, false, not, ◌&&◌, Option, none, some, [], ◌∷◌, ◌++◌, ◌==◌, is_some,
  if◌then◌else◌,
}
use comfy_shell_v.Comfyctl.Paths.{AbsolutePath, is_at_or_above}

-- `binary` is a file that is not UTF-8, with its text where the rest is replaced.
pub data Node : Type 0 where
  directory : Node
  file : (text : String) → Node
  binary : (lossy : String) → Node

abbrev pub Files : Type 0
Files = AbsolutePath → Option Node

abbrev pub exists : Files → AbsolutePath → Bool
exists files path = is_some (files path)

abbrev node_is_dir : Option Node → Bool
node_is_dir (some directory) = true
node_is_dir _ = false

abbrev pub is_dir : Files → AbsolutePath → Bool
is_dir files path = node_is_dir (files path)

-- `path.name`
abbrev pub base_name : AbsolutePath → String
base_name [] = ""
base_name (n ∷ []) = n
base_name (_ ∷ n ∷ names) = base_name (n ∷ names)

-- the same path
abbrev pub same_path : AbsolutePath → AbsolutePath → Bool
same_path [] [] = true
same_path (n ∷ p) (m ∷ q) = n == m && same_path p q
same_path _ _ = false

-- the rest of the second path, where it is at or below the first
abbrev pub below : AbsolutePath → AbsolutePath → Option AbsolutePath
below [] q = some q
below (n ∷ p) [] = none
below (n ∷ p) (m ∷ q) = if n == m then below p q else none

abbrev pub removed : (AbsolutePath → Bool) → Files → Files
removed gone files q = if gone q then none else files q

abbrev pub written : AbsolutePath → Node → Files → Files
written path node files q = if same_path path q then some node else files q

-- the directory and those above it, where nothing stands yet
abbrev pub with_dir : AbsolutePath → Files → Files
with_dir path files q =
    if is_at_or_above q path && not (exists files q) then some directory else files q

-- what the rename of `source` puts at a path that is at or below `target`, or not
abbrev pub relocated : AbsolutePath → Option AbsolutePath → Files → Files
relocated source (some rest) files q = files (source ++ rest)
relocated source none files q = if is_at_or_above source q then none else files q

abbrev pub moved : AbsolutePath → AbsolutePath → Files → Files
moved source target files q = relocated source (below target q) files q
