-- ===== src/Ramfs/Contents.antt =====
-- What is read is what was written.
use dionnex.Base.{
  ℕ, zero, suc, ◌≤◌, ◌≡◌, refl, ap, ◌∙◌, ◌⊎◌, inl, inr, Option, none, some, List, [], ◌∷◌, ◌++◌,
  if◌then◌else◌, ltb, get_elem?, set, length, take, drop, min, length-set, arith,
}
use dionnex.Ramfs.{RamFile, find_from, ramfs_find, ramfs_read, ramfs_write, ramfs_max_data}
use dionnex.Ramfs.Names.{find_from-get, find_from-set}

pub take-append_take :
    (m n : ℕ) (buf rest : List ℕ)
    → m ≤ n
    → n ≤ length buf
    → take m (take n buf ++ rest) ≡ take m buf
take-append_take zero n buf rest a b = ground arith
take-append_take (suc m) zero buf rest a b = absurd (omega arith)
take-append_take (suc m) (suc n) [] rest a b = absurd (omega arith)
take-append_take (suc m) (suc n) (x ∷ buf) rest a b =
    ap (λ t. x ∷ t) (take-append_take m n buf rest (omega arith) (omega arith))

pub get_set :
    (files : List RamFile) (k : ℕ) (f g : RamFile)
    → get_elem? files k ≡ some f
    → get_elem? (set files k g) k ≡ some g
get_set [] k f g at = absurd (ground (arith, at))
get_set (h ∷ files) zero f g at = refl
get_set (h ∷ files) (suc k) f g at = get_set files k f g at

-- What `ramfs_write` of `len` bytes of a buffer leaves under the name.
abbrev pub Holds : List RamFile → List ℕ → List ℕ → ℕ → Option (ℕ × List RamFile) → Type 0
Holds files name buf len none = ⊥
Holds files name buf len (some (n, files')) =
    (n ≡ min len ramfs_max_data)
    × ((len' : ℕ) → ramfs_read files' name len' ≡ some (take (min len' n) buf))
    × ((other : List ℕ) → ramfs_find files' other ≡ ramfs_find files other)
    × (length files' ≡ length files)

-- `ramfs_write` of a buffer of at least `len` bytes fails, as does `ramfs_read`, if no file has the
-- name. Otherwise it writes the first 1024 bytes at most, and says how many; `ramfs_read` of any
-- length gives the bytes written, cut at that length; and every name is found where it was.
pub ramfs_read-ramfs_write :
    (files : List RamFile) (name buf : List ℕ) (len : ℕ)
    → len ≤ length buf
    → (ramfs_write files name buf len ≡ none) × ((len' : ℕ) → ramfs_read files name len' ≡ none)
      ⊎ Holds files name buf len (ramfs_write files name buf len)
unfolding ramfs_find ramfs_read ramfs_write
ramfs_read-ramfs_write files name buf len enough = elim (find_from-get files name 0) [
  | inl nowhere ↦ inl (rw nowhere refl, λ len'. rw nowhere refl)
  | inr (k, f, found, at, holds) ↦
      let n = if ltb ramfs_max_data len then ramfs_max_data else len in
      let cut : n ≡ min len ramfs_max_data = ground arith in
      let fits : n ≤ length buf = ground (arith, enough) in
      let new : RamFile = record f {
        bytes = take n buf ++ drop n f.bytes;
        size = n;
        node = record f.node { size = n };
      } in
      let found' : find_from files name 0 ≡ some k = found ∙ ap some (omega arith) in
      let keeps = λ (other : List ℕ). find_from-set files other 0 k f new at refl in
      let there = get_set files k f new at in
      rw (found', at)
        (inr (
          cut,
          λ len'.
              let less : (if ltb len' n then len' else n) ≡ min len' n = ground arith in
              rw (keeps name, found', there)
                (ap some (
                  ap (λ m. take m new.bytes) less
                  ∙ take-append_take (min len' n) n buf (drop n f.bytes) (omega arith) fits)),
          keeps,
          length-set files k new,
        ))
]
