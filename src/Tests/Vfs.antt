-- ===== src/Tests/Vfs.antt =====
-- fs/vfs.c at fixed inputs: a root with the directory `d`, and a node that is mounted in it.
use dionnex.Base.{
  ℕ, ◌≡◌, refl, none, some, List, [], ◌∷◌, ◌++◌, if◌then◌else◌, ltb, ◌==◌, take, length, arith,
}
use dionnex.Base.Int.{pos}
use dionnex.Ramfs.{same_name}
use dionnex.Strings.Text.Search.{Without}
use dionnex.Vfs.{
  VfsNode, Vfs, VfsOps, no_ops, root_node, root_vfs_ops, split_path, ops_of, child_named,
  vfs_finddir, vfs_lookup_path, vfs_mount, vfs_root_finddir,
}
use dionnex.Vfs.Components.{is_text, is_text-IsText, components}
use dionnex.Vfs.Path.{resolve}
use dionnex.Vfs.Lookup.{vfs_lookup_path-resolve}
use dionnex.Vfs.Split.{parent_text, split_path-last}
use dionnex.Vfs.Mount.{vfs_mount-finddir}

abbrev other_ops : ℕ → VfsOps Unit
other_ops k = root_vfs_ops 4

abbrev some_nodes : ℕ → VfsNode
some_nodes a =
    if a == 1
    then record root_node { children = 2 }
    else if a == 2
    then record root_node { name = b'd' ∷ []; parent = 1 }
    else record root_node { name = []; flags = 1; ops = no_ops }

abbrev tree : Vfs Unit
tree = record { nodes = some_nodes; vfs_root = 1; files = tt }

abbrev d_dir : List ℕ
d_dir = b'/' ∷ (b'd' ∷ [])

vfs_lookup_path-resolve_example : vfs_lookup_path other_ops 4 tree (some d_dir) ≡ (
    if tree.vfs_root == 0
    then some 0
    else resolve other_ops 4 tree tree.vfs_root (components (take 255 d_dir)))
vfs_lookup_path-resolve_example =
    vfs_lookup_path-resolve other_ops 4 tree d_dir (is_text-IsText d_dir (unfold is_text in refl))

abbrev m_name : List ℕ
m_name = b'm' ∷ []

d_resolve : resolve other_ops 4 tree tree.vfs_root (components d_dir) ≡ some 2
unfolding resolve components vfs_finddir vfs_root_finddir child_named ops_of same_name
d_resolve = refl

m-Without : Without b'/' m_name
m-Without = (refl, tt)

split_path-last_example :
    split_path (d_dir ++ (b'/' ∷ m_name))
    ≡ (if ltb 127 (length m_name) then none else some (some (parent_text d_dir, b'm' ∷ [])))
split_path-last_example =
    split_path-last d_dir m_name
      (is_text-IsText (d_dir ++ (b'/' ∷ m_name)) (unfold is_text in refl)) m-Without (omega arith)

vfs_mount-finddir_example :
    (v' : Vfs Unit) × (vfs_mount other_ops 4 tree (some (d_dir ++ (b'/' ∷ m_name))) 3
      ≡ some (v', pos 0))
    × (vfs_finddir other_ops 5 v' 2 m_name
        ≡ (if same_name m_name m_name then some 3 else vfs_finddir other_ops 4 tree 2 m_name))
vfs_mount-finddir_example =
    vfs_mount-finddir tree 2 3 m_name other_ops 4 d_dir m_name []
      (is_text-IsText (d_dir ++ (b'/' ∷ m_name)) (unfold is_text in refl)) m-Without (omega arith)
      (omega arith) (unfold same_name in refl) (λ e. absurd (omega (arith, e))) d_resolve
      (λ e. absurd (omega (arith, e))) (λ e. absurd (omega (arith, e)))
      (λ e. absurd (omega (arith, e))) refl refl refl refl
