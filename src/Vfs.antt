-- ===== src/Vfs.antt =====
-- fs/vfs.c: the tree of nodes by address, with NULL as 0. The operations of the file systems stand
-- behind `ops`: those of the root are here, a table of any other file system is a parameter. `none`
-- is a fault, or the end of the fuel of a walk along `next_sibling`. `finddir` is taken from `ops`,
-- where the code names a field `finddir` that the node does not have.
pub mod Components
pub mod Path
pub mod Lookup
pub mod Split
pub mod Mount
pub mod Calls
use Prim.Native.Nat.{bit_or}
use dionnex.Base.{
  ℕ, zero, suc, ◌+◌, ◌/◌, ◌%◌, ◌&&◌, ◌||◌, Bool, true, false, not, Option, none, some, List, [],
  ◌∷◌, ◌++◌, if◌then◌else◌, ◌==◌, drop, take, replicate, ◌>>=◌,
}
use dionnex.Base.Int.{ℤ, pos, negsuc}
use dionnex.Strings.Memory.{store}
use dionnex.Strings.Text.{strcpy, strncpy, strrchr}
use dionnex.Strings.Text.Content.{text_of}
use dionnex.Strings.Tokens.{Strtok, strtok}
use dionnex.Ramfs.{same_name}

-- The field `ops`: NULL, `&vfs_root_ops`, or the table of another file system.
pub data OpsRef : Type 0 where
  no_ops : OpsRef
  root_ops : OpsRef
  fs_ops : ℕ → OpsRef

-- `vfs_node_t`; a name is the text of its array of 128 bytes.
pub record VfsNode : Type 0 where
  pub name : List ℕ
  pub flags : ℕ
  pub size : ℕ
  pub inode : ℕ
  pub parent : ℕ
  pub children : ℕ
  pub next_sibling : ℕ
  pub private_data : ℕ
  pub ops : OpsRef

-- VFS_DIR and VFS_MOUNT
abbrev pub is_dir : VfsNode → Bool
is_dir node = not (node.flags / 2 % 2 == 0)

abbrev pub vfs_mount_flag : ℕ
vfs_mount_flag = 0x10

-- The nodes, `vfs_root`, and what the file systems keep.
pub record Vfs (F : Type 0) : Type 0 where
  pub nodes : ℕ → VfsNode
  pub vfs_root : ℕ
  pub files : F

abbrev pub put_node : (ℕ → VfsNode) → ℕ → VfsNode → ℕ → VfsNode
put_node nodes at node a = if a == at then node else nodes a

-- `vfs_ops_t`: each operation, or NULL.
pub record VfsOps (F : Type 0) : Type 0 where
  pub read : Option (Vfs F → ℕ → ℕ → ℕ → List ℕ → Option (Vfs F × ℤ × List ℕ))
  pub write : Option (Vfs F → ℕ → ℕ → ℕ → List ℕ → Option (Vfs F × ℤ))
  pub «open» : Option (Vfs F → ℕ → Option (Vfs F))
  pub close : Option (Vfs F → ℕ → Option (Vfs F × ℤ))
  pub readdir : Option (Vfs F → ℕ → ℕ → Option ℕ)
  pub finddir : Option (Vfs F → ℕ → List ℕ → Option ℕ)
  pub create : Option (Vfs F → ℕ → List ℕ → ℕ → Option (Vfs F × ℤ))
  pub delete : Option (Vfs F → ℕ → List ℕ → Option (Vfs F × ℤ))

-- `while (curr) { if (idx == index) return curr; … }`
pub child_at : ℕ → (ℕ → VfsNode) → ℕ → ℕ → ℕ → Option ℕ
child_at zero nodes curr idx index = none
child_at (suc fuel) nodes curr idx index =
    let rest = child_at fuel nodes (nodes curr).next_sibling (idx + 1) index in
    if curr == 0 then some 0 else if idx == index then some curr else rest

unfoldable pub child_named : ℕ → (ℕ → VfsNode) → ℕ → List ℕ → Option ℕ
child_named zero nodes curr name = none
child_named (suc fuel) nodes curr name =
    let rest = child_named fuel nodes (nodes curr).next_sibling name in
    if curr == 0 then some 0 else if same_name (nodes curr).name name then some curr else rest

pub vfs_root_readdir : ℕ → (ℕ → VfsNode) → ℕ → ℕ → Option ℕ
vfs_root_readdir fuel nodes node index =
    if node == 0 || not (is_dir (nodes node))
    then some 0
    else child_at fuel nodes (nodes node).children 0 index

unfoldable pub vfs_root_finddir : ℕ → (ℕ → VfsNode) → ℕ → List ℕ → Option ℕ
vfs_root_finddir fuel nodes node name =
    if node == 0 || not (is_dir (nodes node))
    then some 0
    else child_named fuel nodes (nodes node).children name

abbrev pub root_vfs_ops : {F : Type 0} → ℕ → VfsOps F
root_vfs_ops fuel = record {
  read = none;
  write = none;
  «open» = none;
  close = none;
  readdir = some (λ v node index. vfs_root_readdir fuel v.nodes node index);
  finddir = some (λ v node name. vfs_root_finddir fuel v.nodes node name);
  create = none;
  delete = none;
}

abbrev pub slash : List ℕ
slash = b'/' ∷ []

-- The root as `vfs_init` leaves it.
abbrev pub root_node : VfsNode
root_node = record {
  name = slash;
  flags = 2;
  size = 0;
  inode = 0;
  parent = 0;
  children = 0;
  next_sibling = 0;
  private_data = 0;
  ops = root_ops;
}

-- `node` is what `kmalloc` returns.
pub vfs_init : {F : Type 0} → Vfs F → ℕ → Vfs F
vfs_init v node =
    if node == 0
    then record v { vfs_root = 0 }
    else record v { nodes = put_node v.nodes node root_node; vfs_root = node }

-- The copy of a path in 256 bytes, all of which are written.
pub copy_path : List ℕ → Option (List ℕ)
copy_path path = do copied ← strncpy (replicate 256 0) (path ++ (0 ∷ [])) 255; store copied 255 0

-- With the place of the last slash: the path before it and the name behind it; the inner none is a
-- path without a slash.
pub split_at : List ℕ → Option ℕ → Option (Option (List ℕ × List ℕ))
split_at parent_path none = some none
split_at parent_path (some at) = do
  file_name ← strcpy (replicate 128 0) (drop (at + 1) parent_path)
  cut ← (if at == 0 then strcpy parent_path (slash ++ (0 ∷ [])) else store parent_path at 0)
  parent ← text_of cut
  name ← text_of file_name
  some (some (parent, name))

-- The part that `vfs_mount`, `vfs_create` and `vfs_delete` begin with.
pub split_path : List ℕ → Option (Option (List ℕ × List ℕ))
unfolding split_at
split_path path = do
  parent_path ← copy_path path
  last_slash ← strrchr parent_path b'/'
  split_at parent_path last_slash

-- `node` put under `parent_node`; the last byte of the array of the name is taken to be a NUL.
pub attach : {F : Type 0} → Vfs F → ℕ → ℕ → List ℕ → Vfs F
attach v parent_node node name =
    let n = v.nodes node in
    let named = put_node v.nodes node (record n {
      name = take 127 name;
      parent = parent_node;
      flags = bit_or n.flags vfs_mount_flag;
      next_sibling = (v.nodes parent_node).children;
    }) in
    record v { nodes = put_node named parent_node (record (named parent_node) { children = node }) }

module _ {F : Type 0} (table : ℕ → VfsOps F) (fuel : ℕ) where
  unfoldable pub ops_of : Vfs F → ℕ → Option (VfsOps F)
  ops_of v node = if node == 0 then none else elim (v.nodes node).ops [
    | no_ops ↦ none
    | root_ops ↦ some (root_vfs_ops fuel)
    | fs_ops k ↦ some (table k)
  ]

  unfoldable pub vfs_finddir : Vfs F → ℕ → List ℕ → Option ℕ
  vfs_finddir v dir name = elim (ops_of v dir) [
    | none ↦ some 0
    | some ops ↦ elim ops.finddir [ none ↦ some 0 | some f ↦ f v dir name ]
  ]

  pub vfs_readdir : Vfs F → ℕ → ℕ → Option ℕ
  vfs_readdir v dir index = elim (ops_of v dir) [
    | none ↦ some 0
    | some ops ↦ elim ops.readdir [ none ↦ some 0 | some f ↦ f v dir index ]
  ]

  -- The loop of `vfs_lookup_path`; the fuel is the number of tokens.
  pub walk_path : ℕ → Vfs F → Strtok → ℕ → Option ℕ → Option ℕ
  walk_path rounds v t curr none = some curr
  walk_path zero v t curr (some token) = none
  walk_path (suc rounds) v t curr (some token) = if not (is_dir (v.nodes curr)) then some 0 else do
    name ← text_of (drop token t.str)
    found ← vfs_finddir v curr name
    if found == 0
        then some 0
        else do (t', token') ← strtok t none (slash ++ (0 ∷ [])); walk_path rounds v t' found token'

  -- A path of 255 characters has at most 128 tokens.
  pub vfs_lookup_path : Vfs F → Option (List ℕ) → Option ℕ
  vfs_lookup_path v none = some 0
  vfs_lookup_path v (some path) =
      if v.vfs_root == 0 then some 0 else if same_name path slash then some v.vfs_root else do
        tmp_path ← copy_path path
        (t, token) ←
            strtok (record { str = []; strtok_saved = none }) (some tmp_path) (slash ++ (0 ∷ []))
        walk_path 256 v t v.vfs_root token

  pub vfs_mount : Vfs F → Option (List ℕ) → ℕ → Option (Vfs F × ℤ)
  vfs_mount v none node = some (v, negsuc 0)
  vfs_mount v (some path) node =
      if node == 0 || v.vfs_root == 0
      then some (v, negsuc 0)
      else if same_name path slash
      then some (record v { vfs_root = node }, pos 0)
      else do
        split ← split_path path
        elim split [
          | none ↦ some (v, negsuc 0)
          | some (parent_path, mount_name) ↦ do
            parent_node ← vfs_lookup_path v (some parent_path)
            if parent_node == 0 || not (is_dir (v.nodes parent_node))
                then some (v, negsuc 0)
                else some (attach v parent_node node mount_name, pos 0)
        ]
