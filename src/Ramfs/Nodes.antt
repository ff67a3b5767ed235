-- ===== src/Ramfs/Nodes.antt =====
-- The operations of fs/ramfs.c on nodes, which the virtual file system calls. A node names its file
-- by the slot in `private_data`, or none; its `size` is that of the node in the slot. An access
-- outside a buffer is a fault, none.
pub mod Offsets
use dionnex.Base.{
  ℕ, zero, suc, ◌+◌, ◌-◌, Bool, true, false, not, Option, none, some, List, [], ◌∷◌, ◌++◌,
  if◌then◌else◌, leb, ltb, ◌==◌, take, drop, replicate, get_elem?, set, length, ◌>>=◌,
}
use dionnex.Base.Int.{ℤ, pos, negsuc}
use dionnex.Strings.Number.{u32}
use dionnex.Strings.Memory.{memcpy}
use dionnex.Ramfs.{
  RamFile, Node, ramfs_max_data, ramfs_find, ramfs_create, ramfs_delete, ramfs_write,
}

-- RAMFS_MAX_FILES
abbrev pub ramfs_max_files : ℕ
ramfs_max_files = 64

-- `file->used` of the file behind a node.
pub node_file : List RamFile → Option ℕ → Option RamFile
node_file files none = none
node_file files (some i) = do f ← get_elem? files i; if f.used then some f else none

-- How many bytes are read, in the arithmetic of the code.
abbrev pub bytes_to_read : RamFile → ℕ → ℕ → ℕ
bytes_to_read f offset size = if ltb f.size (u32 (offset + size)) then f.size - offset else size

-- `buf` is the caller's buffer; the result and the buffer afterwards.
read_file : RamFile → ℕ → ℕ → List ℕ → Option (ℤ × List ℕ)
read_file f offset size buf = if leb f.size offset then some (pos 0, buf) else do
  buf' ← memcpy buf (drop offset f.bytes) (bytes_to_read f offset size)
  some (pos (bytes_to_read f offset size), buf')

pub ramfs_vfs_read :
    List RamFile → Option ℕ → ℕ → ℕ → Option (List ℕ) → Option (ℤ × Option (List ℕ))
unfolding read_file
ramfs_vfs_read files slot offset size none = some (negsuc 0, none)
ramfs_vfs_read files slot offset size (some buf) = elim (node_file files slot) [
  | none ↦ some (negsuc 0, some buf)
  | some f ↦ do (n, buf') ← read_file f offset size buf; some (n, some buf')
]

abbrev pub bytes_to_write : ℕ → ℕ → ℕ
bytes_to_write offset size =
    if ltb ramfs_max_data (u32 (offset + size)) then ramfs_max_data - offset else size

-- The file after `n` bytes were written, in which `file->size` and `node->size` only grow.
abbrev pub grown_file : RamFile → ℕ → List ℕ → RamFile
grown_file f end bytes =
    if ltb f.size end
    then record f { bytes = bytes; size = end; node = record f.node { size = end } }
    else record f { bytes = bytes }

write_file : RamFile → ℕ → ℕ → List ℕ → Option (RamFile × ℕ)
write_file f offset size buf = do
  rest ← memcpy (drop offset f.bytes) buf (bytes_to_write offset size)
  some (
    grown_file f (u32 (offset + bytes_to_write offset size)) (take offset f.bytes ++ rest),
    bytes_to_write offset size,
  )

pub ramfs_vfs_write : List RamFile → Option ℕ → ℕ → ℕ → Option (List ℕ) → Option (ℤ × List RamFile)
unfolding write_file
ramfs_vfs_write files none offset size buf = some (negsuc 0, files)
ramfs_vfs_write files (some i) offset size none = some (negsuc 0, files)
ramfs_vfs_write files (some i) offset size (some buf) = elim (node_file files (some i)) [
  | none ↦ some (negsuc 0, files)
  | some f ↦
      if leb ramfs_max_data offset
      then some (negsuc 0, files)
      else do (f', n) ← write_file f offset size buf; some (pos n, set files i f')
]

-- The slot of the file that stands `index` places behind the first one in use.
readdir_from : List RamFile → ℕ → ℕ → ℕ → Option ℕ
readdir_from [] i active_idx index = none
readdir_from (f ∷ files) i active_idx index =
    let counted = readdir_from files (i + 1) (active_idx + 1) index in
    let free = readdir_from files (i + 1) active_idx index in
    if f.used then (if active_idx == index then some i else counted) else free

pub ramfs_vfs_readdir : List RamFile → ℕ → Option ℕ
unfolding readdir_from
ramfs_vfs_readdir files index = readdir_from files 0 0 index

-- The loop is that of `ramfs_find`.
pub ramfs_vfs_finddir : List RamFile → Option (List ℕ) → Option ℕ
ramfs_vfs_finddir files none = none
ramfs_vfs_finddir files (some name) = ramfs_find files name

pub ramfs_vfs_create : List RamFile → List ℕ → ℕ → Option (List RamFile)
ramfs_vfs_create files name flags = ramfs_create files name

pub ramfs_vfs_delete : List RamFile → List ℕ → Option (List RamFile)
ramfs_vfs_delete files name = ramfs_delete files name

-- The table of 64 free slots, all zeros.
abbrev pub zeroed_files : List RamFile
zeroed_files = replicate ramfs_max_files (record {
  name = [];
  bytes = replicate ramfs_max_data 0;
  size = 0;
  used = false;
  node = record { name = []; size = 0; inode = 0 };
})

-- "readme.txt" and "Welcome to Dionnex Monolithic Kernel v0.1!"
abbrev pub readme_name : List ℕ
readme_name =
    b'r' ∷ (b'e' ∷ (b'a' ∷ (b'd' ∷ (b'm' ∷ (b'e' ∷ (b'.' ∷ (b't' ∷ (b'x' ∷ (b't' ∷ [])))))))))

abbrev pub welcome : List ℕ
welcome =
    b'W'
    ∷ (b'e'
        ∷ (b'l'
            ∷ (b'c'
                ∷ (b'o'
                    ∷ (b'm'
                        ∷ (b'e'
                            ∷ (b' '
                                ∷ (b't'
                                    ∷ (b'o'
                                        ∷ (b' '
                                            ∷ (b'D'
                                                ∷ (b'i'
                                                    ∷ (b'o'
                                                        ∷ (b'n'
                                                            ∷ (b'n'
                                                            ∷ (b'e'
                                                            ∷ (b'x'
                                                            ∷ (b' '
                                                            ∷ (b'M'
                                                            ∷ (b'o'
                                                            ∷ (b'n'
                                                            ∷ (b'o'
                                                            ∷ (b'l'
                                                            ∷ (b'i'
                                                            ∷ (b't'
                                                            ∷ (b'h'
                                                            ∷ (b'i'
                                                            ∷ (b'c'
                                                            ∷ (b' '
                                                            ∷ (b'K'
                                                            ∷ (b'e'
                                                            ∷ (b'r'
                                                            ∷ (b'n'
                                                            ∷ (b'e'
                                                            ∷ (b'l'
                                                            ∷ (b' '
                                                            ∷ (b'v'
                                                            ∷ (b'0' ∷ (b'.' ∷ (b'1' ∷ (b'!' ∷ []))))
                                                            )))))))))))))))))))))))))))))))))))))

-- The results of `ramfs_create` and `ramfs_write` are not looked at.
pub created_files : List RamFile
created_files = elim (ramfs_create zeroed_files readme_name) [
  | none ↦ zeroed_files
  | some files ↦ files
]

pub ramfs_init : List RamFile
ramfs_init = elim (ramfs_write created_files readme_name welcome (length welcome)) [
  | none ↦ created_files
  | some (n, files) ↦ files
]
