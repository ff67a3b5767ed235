-- ===== src/Ramfs/Nodes/Offsets.antt =====
-- Reads and writes at an offset.
use dionnex.Base.{
  ℕ, zero, suc, ◌+◌, ◌-◌, ◌^◌, ◌≤◌, ◌<◌, ◌≡◌, refl, ap, ◌∙◌, inl, inr, true, false, none, some,
  List, [], ◌∷◌, ◌++◌, if◌then◌else◌, leb, ltb, take, drop, min, length, get_elem?, set, arith,
  Bool-cases,
}
use dionnex.Base.Int.{pos}
use dionnex.Strings.Number.{u32}
use dionnex.Strings.Memory.Move.{memcpy-take-drop, memcpy-short}
use dionnex.Ramfs.{RamFile, ramfs_max_data}
use dionnex.Ramfs.Contents.{take-append_take, get_set}
use dionnex.Ramfs.Nodes.{
  node_file, bytes_to_write, grown_file, read_file, write_file, ramfs_vfs_read, ramfs_vfs_write,
}

length-drop : (n : ℕ) (xs : List ℕ) → length (drop n xs) ≡ length xs - n
length-drop zero xs = omega arith
length-drop (suc n) [] = omega arith
length-drop (suc n) (x ∷ xs) = omega (arith, length-drop n xs)

node_file-some :
    (files : List RamFile) (i : ℕ) (f : RamFile)
    → get_elem? files i ≡ some f
    → f.used ≡ true
    → node_file files (some i) ≡ some f
unfolding node_file
node_file-some files i f at used = rw at (rw used refl)

-- In a file in use of at most 1024 bytes, with room for 1024, from an offset below its size: a sum of
-- the offset and the 32-bit size of the read that is 2 ^ 32 or more wraps, and the test lets the size
-- through. If what is left of the sum is no more than the size of the file, `ramfs_vfs_read` reads
-- past the 1024 bytes, whatever the buffer has room for.
pub ramfs_vfs_read-wraps :
    (files : List RamFile) (i : ℕ) (f : RamFile) (offset size : ℕ) (buf : List ℕ)
    → get_elem? files i ≡ some f
    → f.used ≡ true
    → length f.bytes ≡ ramfs_max_data
    → offset < f.size
    → f.size ≤ ramfs_max_data
    → 2 ^ 32 ≤ offset + size
    → size < 2 ^ 32
    → u32 (offset + size) ≤ f.size
    → ramfs_vfs_read files (some i) offset size (some buf) ≡ none
unfolding ramfs_vfs_read read_file
ramfs_vfs_read-wraps files i f offset size buf at used full inside most wraps word low =
    let inside' : leb f.size offset ≡ false = ground arith in
    let all : ltb f.size (u32 (offset + size)) ≡ false = ground (arith, low) in
    let past : length (drop offset f.bytes) < size =
      omega (arith, length-drop offset f.bytes, full, wraps) in
    rw (node_file-some files i f at used, ramfs_vfs_read)
      (rw (inside', all) (rw (memcpy-short buf (drop offset f.bytes) size past) refl))

grown_file_lem :
    (f : RamFile) (end : ℕ) (bytes : List ℕ)
    → ((grown_file f end bytes).used ≡ f.used)
      × ((grown_file f end bytes).bytes ≡ bytes)
      × ((grown_file f end bytes).size ≡ (if ltb f.size end then end else f.size))
grown_file_lem f end bytes = elim (Bool-cases (ltb f.size end)) [
  | inl more ↦ rw more (refl, refl, refl)
  | inr less ↦ rw less (refl, refl, refl)
]

drop-append_take : (n : ℕ) (xs rest : List ℕ) → n ≤ length xs → drop n (take n xs ++ rest) ≡ rest
drop-append_take zero xs rest h = refl
drop-append_take (suc n) [] rest h = absurd (omega arith)
drop-append_take (suc n) (x ∷ xs) rest h = drop-append_take n xs rest (omega arith)

length-append_take :
    (n : ℕ) (xs rest : List ℕ) → n ≤ length xs → length (take n xs ++ rest) ≡ n + length rest
length-append_take zero xs rest h = omega arith
length-append_take (suc n) [] rest h = absurd (omega arith)
length-append_take (suc n) (x ∷ xs) rest h =
    omega (arith, length-append_take n xs rest (omega arith))

-- A read of bytes that the file has, into a buffer that has room for them.
read_file-inside :
    (f : RamFile) (offset n : ℕ) (room : List ℕ)
    → length f.bytes ≡ ramfs_max_data
    → 0 < n
    → offset + n ≤ f.size
    → offset + n ≤ ramfs_max_data
    → n ≤ length room
    → read_file f offset n room ≡ some (pos n, take n (drop offset f.bytes) ++ drop n room)
unfolding read_file
read_file-inside f offset n room full go inside most place =
    let below : leb f.size offset ≡ false = ground arith in
    let all : ltb f.size (u32 (offset + n)) ≡ false = ground arith in
    let copy =
      memcpy-take-drop room (drop offset f.bytes) n place
        (omega (arith, length-drop offset f.bytes, full)) in
    rw (below, all) (rw copy refl)

ramfs_vfs_read-some :
    (files : List RamFile) (i : ℕ) (g : RamFile) (offset n : ℕ) (room out : List ℕ)
    → node_file files (some i) ≡ some g
    → read_file g offset n room ≡ some (pos n, out)
    → ramfs_vfs_read files (some i) offset n (some room) ≡ some (pos n, some out)
unfolding ramfs_vfs_read
ramfs_vfs_read-some files i g offset n room out there run = rw (there, ramfs_vfs_read) (rw run refl)

-- What a write at an offset leaves in the file of slot `i`.
pub record WrittenAt (files : List RamFile) (i : ℕ) (f : RamFile) (offset n : ℕ) (buf : List ℕ)
    (f' : RamFile) : Type 0 where
  pub full : length f'.bytes ≡ ramfs_max_data
  pub size : f'.size ≡ (if ltb f.size (offset + n) then offset + n else f.size)
  pub before : take offset f'.bytes ≡ take offset f.bytes
  pub read :
      (room : List ℕ)
      → n ≤ length room
      → ramfs_vfs_read (set files i f') (some i) offset n (some room)
        ≡ some (pos n, some (take n buf ++ drop n room))

module _ (files : List RamFile) (i : ℕ) (f : RamFile) (offset n : ℕ) (buf : List ℕ)
    (at : get_elem? files i ≡ some f) (used : f.used ≡ true)
    (full : length f.bytes ≡ ramfs_max_data) (go : 0 < n) (inside : offset + n ≤ ramfs_max_data)
    (enough : n ≤ length buf) where
  abbrev rest : List ℕ
  rest = take n buf ++ drop n (drop offset f.bytes)

  abbrev written : RamFile
  written = grown_file f (u32 (offset + n)) (take offset f.bytes ++ rest)

  written-bytes : written.bytes ≡ take offset f.bytes ++ rest
  written-bytes = (grown_file_lem f (u32 (offset + n)) (take offset f.bytes ++ rest)).1

  written-full : length written.bytes ≡ ramfs_max_data
  written-full =
      ap length written-bytes
      ∙ omega (
        arith,
        length-append_take offset f.bytes rest (omega (arith, full, inside)),
        length-append_take n buf (drop n (drop offset f.bytes)) enough,
        length-drop n (drop offset f.bytes),
        length-drop offset f.bytes,
        full,
        inside,
      )

  written-size : written.size ≡ (if ltb f.size (offset + n) then offset + n else f.size)
  written-size =
      let no_wrap : u32 (offset + n) ≡ offset + n = omega (arith, inside) in
      (grown_file_lem f (u32 (offset + n)) (take offset f.bytes ++ rest)).2
      ∙ ap (λ (k : ℕ). if ltb f.size k then k else f.size) no_wrap

  written-WrittenAt : WrittenAt files i f offset n buf written
  written-WrittenAt = record {
    full = written-full;
    size = written-size;
    before =
        ap (take offset) written-bytes
        ∙ take-append_take offset offset f.bytes rest (omega arith) (omega (arith, full, inside));
    read = λ room place.
        let there =
          node_file-some (set files i written) i written (get_set files i f written at)
            ((grown_file_lem f (u32 (offset + n)) (take offset f.bytes ++ rest)).0 ∙ used) in
        let run =
          read_file-inside written offset n room written-full go (ground (arith, written-size))
            inside place in
        let what : take n (drop offset written.bytes) ≡ take n buf =
          ap (λ (t : List ℕ). take n (drop offset t)) written-bytes
          ∙ ap (take n) (drop-append_take offset f.bytes rest (omega (arith, full, inside)))
          ∙ take-append_take n n buf (drop n (drop offset f.bytes)) (omega arith) enough in
        ramfs_vfs_read-some (set files i written) i written offset n room _ there run
        ∙ ap (λ (t : List ℕ). some (pos n, some (t ++ drop n room))) what;
  }

-- `ramfs_vfs_write` of a positive number of bytes that does not wrap, at an offset below 1024 of a
-- file in use, from a buffer that has them, writes what fits into 1024 bytes and says how many. The
-- file grows to the end of what was written if that is further, keeps the bytes before it, and
-- `ramfs_vfs_read` at the offset gives the bytes written.
pub ramfs_vfs_write-WrittenAt :
    (files : List RamFile) (i : ℕ) (f : RamFile) (offset size : ℕ) (buf : List ℕ)
    → get_elem? files i ≡ some f
    → f.used ≡ true
    → length f.bytes ≡ ramfs_max_data
    → offset < ramfs_max_data
    → 0 < size
    → offset + size < 2 ^ 32
    → size ≤ length buf
    → let n = min size (ramfs_max_data - offset) in
      (f' : RamFile) × (ramfs_vfs_write files (some i) offset size (some buf)
        ≡ some (pos n, set files i f'))
      × WrittenAt files i f offset n buf f'
unfolding ramfs_vfs_write write_file
ramfs_vfs_write-WrittenAt files i f offset size buf at used full inside go word enough =
    let n = min size (ramfs_max_data - offset) in
    let cut : bytes_to_write offset size ≡ n = ground (arith, word) in
    let below : leb ramfs_max_data offset ≡ false = ground (arith, inside) in
    let copy =
      memcpy-take-drop (drop offset f.bytes) buf n (omega (arith, length-drop offset f.bytes, full))
        (omega (arith, enough)) in
    (
      written files i f offset n buf at used full (omega (arith, go, inside)) (omega arith)
          (omega (arith, enough)),
      rw (node_file-some files i f at used, ramfs_vfs_write) (rw (below, cut) (rw copy refl)),
      written-WrittenAt files i f offset n buf at used full (omega (arith, go, inside))
          (omega arith) (omega (arith, enough)),
    )
