-- ===== src/Strings/Memory.antt =====
-- kernel/string.c, `memset` to `memcmp`. The `while (n--)` loops are recursions on `n`.
pub mod Cursor
pub mod Move
use dionnex.Base.{
  ℕ, zero, suc, ◌+◌, ◌%◌, ◌<◌, Option, none, some, List, [], ◌∷◌, if◌then◌else◌, ltb, ◌==◌,
  get_elem?, set, length, ◌>>=◌,
}
use dionnex.Base.Int.{ℤ, pos, sub_ℕ}

-- Stores `(unsigned char)c` in the first `n` bytes.
pub memset : List ℕ → ℕ → ℕ → Option (List ℕ)
memset s c zero = some s
memset [] c (suc n) = none
memset (_ ∷ s) c (suc n) = do rest ← memset s c n; some ((c % 256) ∷ rest)

-- `dest` and `src` are two objects; for a copy within one object see `memmove`.
pub memcpy : List ℕ → List ℕ → ℕ → Option (List ℕ)
memcpy dest src zero = some dest
memcpy [] src (suc n) = none
memcpy (_ ∷ dest) [] (suc n) = none
memcpy (_ ∷ dest) (b ∷ src) (suc n) = do rest ← memcpy dest src n; some (b ∷ rest)

-- `buf[i] = v`
unfoldable pub store : List ℕ → ℕ → ℕ → Option (List ℕ)
store buf i v = if ltb i (length buf) then some (set buf i v) else none

-- `while (n--) *d++ = *s++;` at offsets `d` and `s` of one object.
unfoldable pub copy_up : ℕ → List ℕ → ℕ → ℕ → Option (List ℕ)
copy_up zero buf d s = some buf
copy_up (suc n) buf d s = do
  b ← get_elem? buf s
  next ← store buf d b
  copy_up n next (d + 1) (s + 1)

-- `while (n--) *--d = *--s;`, where both pointers stand `n` past the offsets `d` and `s`.
pub copy_down : ℕ → List ℕ → ℕ → ℕ → Option (List ℕ)
copy_down zero buf d s = some buf
copy_down (suc n) buf d s = do
  b ← get_elem? buf (s + n)
  next ← store buf (d + n) b
  copy_down n next d s

-- `dest` and `src` are offsets of one object, so that they may overlap.
pub memmove : List ℕ → ℕ → ℕ → ℕ → Option (List ℕ)
memmove buf dest src n =
    if ltb dest src
    then copy_up n buf dest src
    else if ltb src dest
    then copy_down n buf dest src
    else some buf

-- The difference of the first two bytes that differ, or 0.
pub memcmp : List ℕ → List ℕ → ℕ → Option ℤ
memcmp p1 p2 zero = some (pos 0)
memcmp [] p2 (suc n) = none
memcmp (a ∷ p1) [] (suc n) = none
memcmp (a ∷ p1) (b ∷ p2) (suc n) = if a == b then memcmp p1 p2 n else some (sub_ℕ a b)
