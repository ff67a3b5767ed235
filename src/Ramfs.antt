-- ===== src/Ramfs.antt =====
-- fs/ramfs.c: the table of files in memory. A name is the text of its array up to the NUL; a file's
-- data is the list of its bytes. A result of -1 is none.
pub mod Names
pub mod Contents
pub mod Create
pub mod Nodes
use dionnex.Base.{
  ℕ, zero, suc, ◌+◌, ◌-◌, ◌^◌, ◌&&◌, Bool, true, false, not, Option, none, some, List, [], ◌∷◌,
  ◌++◌, if◌then◌else◌, leb, ltb, ◌==◌, take, drop, replicate, get_elem?, set, length, ◌>>=◌, min,
}
use dionnex.Strings.Number.{u32}

abbrev pub ramfs_max_data : ℕ
ramfs_max_data = 1024

-- The part of `vfs_node_t` that `ramfs_create` fills, less the pointers.
pub record Node : Type 0 where
  pub name : List ℕ
  pub size : ℕ
  pub inode : ℕ

pub record RamFile : Type 0 where
  pub name : List ℕ
  pub bytes : List ℕ
  pub size : ℕ
  pub used : Bool
  pub node : Node

-- `strcmp(a, b) == 0` on texts.
unfoldable pub same_name : List ℕ → List ℕ → Bool
same_name [] [] = true
same_name [] (b ∷ y) = false
same_name (a ∷ x) [] = false
same_name (a ∷ x) (b ∷ y) = a == b && same_name x y

-- The loop of `ramfs_find` from slot `i` on.
pub find_from : List RamFile → List ℕ → ℕ → Option ℕ
find_from [] name i = none
find_from (f ∷ files) name i =
    let rest = find_from files name (i + 1) in
    if f.used && same_name f.name name then some i else rest

pub ramfs_find : List RamFile → List ℕ → Option ℕ
ramfs_find files name = find_from files name 0

-- A slot as `ramfs_create` fills it: `strncpy` of 63 characters over an array that ends with a NUL,
-- and of 127 for the node.
abbrev pub fill : RamFile → List ℕ → ℕ → RamFile
fill f name i = record {
  name = take 63 name;
  bytes = set f.bytes 0 0;
  size = 0;
  used = true;
  node = record { name = take 127 name; size = 0; inode = i + 1 };
}

-- The loop of `ramfs_create` from slot `i` on.
pub create_from : List RamFile → List ℕ → ℕ → Option (List RamFile)
create_from [] name i = none
create_from (f ∷ files) name i =
    let rest : Option (List RamFile) = do files' ← create_from files name (i + 1); some (f ∷ files')
    in if not f.used then some (fill f name i ∷ files) else rest

pub ramfs_create : List RamFile → List ℕ → Option (List RamFile)
ramfs_create files name = elim (ramfs_find files name) [
  | some i ↦ none
  | none ↦ create_from files name 0
]

pub ramfs_delete : List RamFile → List ℕ → Option (List RamFile)
ramfs_delete files name = do
  i ← ramfs_find files name
  f ← get_elem? files i
  some (set files i (record f { used = false; size = 0; name = [] }))

-- The bytes that are copied to the caller's buffer.
pub ramfs_read : List RamFile → List ℕ → ℕ → Option (List ℕ)
ramfs_read files name len = do
  i ← ramfs_find files name
  f ← get_elem? files i
  some (take (if ltb len f.size then len else f.size) f.bytes)

-- `buf` has at least `len` bytes. The number of bytes written, and the table.
pub ramfs_write : List RamFile → List ℕ → List ℕ → ℕ → Option (ℕ × List RamFile)
ramfs_write files name buf len =
    let to_write = if ltb ramfs_max_data len then ramfs_max_data else len in
    do
      i ← ramfs_find files name
      f ← get_elem? files i
      some (
        to_write,
        set files i (record f {
          bytes = take to_write buf ++ drop to_write f.bytes;
          size = to_write;
          node = record f.node { size = to_write };
        }),
      )

pub count_used : List RamFile → ℕ
count_used [] = 0
count_used (f ∷ files) = (if f.used then 1 else 0) + count_used files

pub ramfs_get_file_count : List RamFile → ℕ
ramfs_get_file_count files = count_used files
