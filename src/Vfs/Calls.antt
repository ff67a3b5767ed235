-- ===== src/Vfs/Calls.antt =====
-- fs/vfs.c: the calls that find a node and go through its table of operations.
use dionnex.Base.{ℕ, ◌||◌, not, Option, none, some, List, if◌then◌else◌, ◌==◌, take, ◌>>=◌}
use dionnex.Base.Int.{ℤ, pos, negsuc}
use dionnex.Vfs.{Vfs, VfsOps, is_dir, split_path, ops_of, vfs_lookup_path}

module _ {F : Type 0} (table : ℕ → VfsOps F) (fuel : ℕ) where
  pub vfs_open : Vfs F → Option (List ℕ) → Option (Vfs F × ℕ)
  vfs_open v path = do
    node ← vfs_lookup_path table fuel v path
    elim (ops_of table fuel v node) [
      | none ↦ some (v, node)
      | some ops ↦ elim ops.«open» [
        | none ↦ some (v, node)
        | some f ↦ do v' ← f v node; some (v', node)
      ]
    ]

  pub vfs_close : Vfs F → ℕ → Option (Vfs F × ℤ)
  vfs_close v node = elim (ops_of table fuel v node) [
    | none ↦ some (v, pos 0)
    | some ops ↦ elim ops.close [ none ↦ some (v, pos 0) | some f ↦ f v node ]
  ]

  pub vfs_read : Vfs F → ℕ → ℕ → ℕ → List ℕ → Option (Vfs F × ℤ × List ℕ)
  vfs_read v node offset size buf = elim (ops_of table fuel v node) [
    | none ↦ some (v, negsuc 0, buf)
    | some ops ↦ elim ops.read [
      | none ↦ some (v, negsuc 0, buf)
      | some f ↦ f v node offset size buf
    ]
  ]

  pub vfs_write : Vfs F → ℕ → ℕ → ℕ → List ℕ → Option (Vfs F × ℤ)
  vfs_write v node offset size buf = elim (ops_of table fuel v node) [
    | none ↦ some (v, negsuc 0)
    | some ops ↦ elim ops.write [ none ↦ some (v, negsuc 0) | some f ↦ f v node offset size buf ]
  ]

  -- The directory that `vfs_create` and `vfs_delete` call, with its table and the name.
  pub parent_of : Vfs F → List ℕ → Option (Option (ℕ × VfsOps F × List ℕ))
  parent_of v path = do
    split ← split_path path
    elim split [
      | none ↦ some none
      | some (parent_path, file_name) ↦ do
        parent_node ← vfs_lookup_path table fuel v (some parent_path)
        if parent_node == 0 || not (is_dir (v.nodes parent_node))
            then some none
            else elim (ops_of table fuel v parent_node) [
              | none ↦ some none
              | some ops ↦ some (some (parent_node, ops, file_name))
            ]
    ]

  pub vfs_create : Vfs F → Option (List ℕ) → ℕ → Option (Vfs F × ℤ)
  vfs_create v none flags = some (v, negsuc 0)
  vfs_create v (some path) flags = do
    found ← parent_of v path
    elim found [
      | none ↦ some (v, negsuc 0)
      | some (parent_node, ops, file_name) ↦ elim ops.create [
        | none ↦ some (v, negsuc 0)
        | some f ↦ f v parent_node file_name flags
      ]
    ]

  pub vfs_delete : Vfs F → Option (List ℕ) → Option (Vfs F × ℤ)
  vfs_delete v none = some (v, negsuc 0)
  vfs_delete v (some path) = do
    found ← parent_of v path
    elim found [
      | none ↦ some (v, negsuc 0)
      | some (parent_node, ops, file_name) ↦ elim ops.delete [
        | none ↦ some (v, negsuc 0)
        | some f ↦ f v parent_node file_name
      ]
    ]

  -- The name, the flags, the size and the inode, or -1.
  pub vfs_stat : Vfs F → Option (List ℕ) → Option (Option (List ℕ × ℕ × ℕ × ℕ))
  vfs_stat v path = do
    node ← vfs_lookup_path table fuel v path
    let n = v.nodes node
    if node == 0 then some none else some (some (take 127 n.name, n.flags, n.size, n.inode))
