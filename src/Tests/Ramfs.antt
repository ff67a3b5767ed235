-- ===== src/Tests/Ramfs.antt =====
-- fs/ramfs.c at fixed inputs.
use dionnex.Base.{
  ℕ, ◌≡◌, none, some, true, false, List, [], ◌∷◌, arith, refl, length, replicate, length-replicate,
  set,
}
use dionnex.Ramfs.{RamFile, Node}
use dionnex.Base.Int.{pos}
use dionnex.Ramfs.Nodes.{ramfs_vfs_read, ramfs_vfs_write}
use dionnex.Ramfs.Nodes.Offsets.{WrittenAt, ramfs_vfs_write-WrittenAt, ramfs_vfs_read-wraps}

abbrev no_node : Node
no_node = record { name = []; size = 0; inode = 0 }

-- A free slot, and a file of the name `a` with nothing in it.
abbrev one_file : List RamFile
one_file =
    record { name = []; bytes = 0 ∷ []; size = 0; used = false; node = no_node }
    ∷ (record { name = b'a' ∷ []; bytes = 0 ∷ (0 ∷ []); size = 0; used = true; node = no_node }
        ∷ [])

-- A file of 100 bytes in slot 1.
abbrev hundred : RamFile
hundred = record {
  name = b'b' ∷ [];
  bytes = replicate 1024 7;
  size = 100;
  used = true;
  node = record { name = b'b' ∷ []; size = 100; inode = 2 };
}

abbrev with_hundred : List RamFile
with_hundred =
    record { name = []; bytes = []; size = 0; used = false; node = no_node } ∷ (hundred ∷ [])

hundred-full : length hundred.bytes ≡ 1024
hundred-full = length-replicate {A = ℕ} 1024 7

ramfs_vfs_write-WrittenAt_example :
    (f' : RamFile) × (ramfs_vfs_write with_hundred (some 1) 99 2 (some (1 ∷ (2 ∷ [])))
      ≡ some (pos 2, set with_hundred 1 f'))
    × WrittenAt with_hundred 1 hundred 99 2 (1 ∷ (2 ∷ [])) f'
ramfs_vfs_write-WrittenAt_example =
    ramfs_vfs_write-WrittenAt with_hundred 1 hundred 99 2 (1 ∷ (2 ∷ [])) refl refl hundred-full
      (omega arith) (omega arith) (omega arith) (omega arith)

-- 99 + 0xFFFFFFFF wraps to 98.
ramfs_vfs_read-wraps_example :
    ramfs_vfs_read with_hundred (some 1) 99 0xFFFFFFFF (some (replicate 2000 0)) ≡ none
ramfs_vfs_read-wraps_example =
    ramfs_vfs_read-wraps with_hundred 1 hundred 99 0xFFFFFFFF (replicate 2000 0) refl refl
      hundred-full (omega arith) (omega arith) (omega arith) (omega arith) (omega arith)
