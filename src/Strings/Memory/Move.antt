-- ===== src/Strings/Memory/Move.antt =====
-- What `memmove` and `memcpy` leave in the object, overlapping ranges included.
use dionnex.Base.{
  ℕ, zero, suc, ◌+◌, ◌-◌, ◌≤◌, ◌<◌, ◌≡◌, refl, inl, inr, ◌&&◌, none, some, List, [], ◌∷◌, ◌++◌,
  if◌then◌else◌, ltb, leb, get_elem?, set, length, take, drop, arith, length-set, Bool-cases,
  ltb→lt, lt→ltb, ◌∙◌,
}
use dionnex.Base.Places.{get_elem?-set, get_elem?_total}
use dionnex.Strings.Memory.{memcpy, store, copy_up, copy_down, memmove}

-- The object after the move of `n` bytes, byte by byte.
abbrev pub Moved : List ℕ → ℕ → ℕ → ℕ → List ℕ → Type 0
Moved buf d s n out =
    (length out ≡ length buf)
    × ((i : ℕ)
        → get_elem? out i
          ≡ (if leb d i && ltb i (d + n) then get_elem? buf (s + (i - d)) else get_elem? buf i))

-- One round of either loop: the byte at `i` is read and stored at `j`.
copy_up_round :
    (n : ℕ) (buf : List ℕ) (d s b : ℕ)
    → get_elem? buf s ≡ some b
    → d < length buf
    → copy_up (suc n) buf d s ≡ copy_up n (set buf d b) (d + 1) (s + 1)
unfolding copy_up store
copy_up_round n buf d s b e h = rw e (rw (lt→ltb _ _ h) refl)

copy_down_round :
    (n : ℕ) (buf : List ℕ) (d s b : ℕ)
    → get_elem? buf (s + n) ≡ some b
    → d + n < length buf
    → copy_down (suc n) buf d s ≡ copy_down n (set buf (d + n) b) d s
unfolding copy_down store
copy_down_round n buf d s b e h = rw e (rw (lt→ltb _ _ h) refl)

pub copy_up-Moved :
    (n : ℕ) (buf : List ℕ) (d s : ℕ)
    → d < s
    → s + n ≤ length buf
    → (out : List ℕ) × (copy_up n buf d s ≡ some out) × Moved buf d s n out
copy_up-Moved zero buf d s lt fits = (buf, unfold copy_up in refl, (refl, λ i. ground arith))
copy_up-Moved (suc n) buf d s lt fits =
    let (b, at_s) = get_elem?_total buf s (omega arith) in
    let len = length-set buf d b in
    let (out, run, (same, cell)) =
      copy_up-Moved n (set buf d b) (d + 1) (s + 1) (omega arith) (omega arith) in
    (
      out,
      copy_up_round n buf d s b at_s (omega arith) ∙ run,
      (same ∙ len, λ i. cell i ∙ shifted b at_s i),
    )
  where
    shifted :
        (b : ℕ)
        → get_elem? buf s ≡ some b
        → (i : ℕ)
        → (if leb (d + 1) i && ltb i (d + 1 + n)
            then get_elem? (set buf d b) (s + 1 + (i - (d + 1)))
            else get_elem? (set buf d b) i)
          ≡ (if leb d i && ltb i (d + suc n) then get_elem? buf (s + (i - d)) else get_elem? buf i)
    shifted b e i = ground (
      arith,
      get_elem?-set buf d i b (omega arith),
      get_elem?-set buf d (s + 1 + (i - (d + 1))) b (omega arith),
    )

copy_down-Moved :
    (n : ℕ) (buf : List ℕ) (d s : ℕ)
    → s < d
    → d + n ≤ length buf
    → (out : List ℕ) × (copy_down n buf d s ≡ some out) × Moved buf d s n out
copy_down-Moved zero buf d s lt fits = (buf, unfold copy_down in refl, (refl, λ i. ground arith))
copy_down-Moved (suc n) buf d s lt fits =
    let (b, at_s) = get_elem?_total buf (s + n) (omega arith) in
    let len = length-set buf (d + n) b in
    let (out, run, (same, cell)) = copy_down-Moved n (set buf (d + n) b) d s lt (omega arith) in
    (
      out,
      copy_down_round n buf d s b at_s (omega arith) ∙ run,
      (same ∙ len, λ i. cell i ∙ shifted b at_s i),
    )
  where
    shifted :
        (b : ℕ)
        → get_elem? buf (s + n) ≡ some b
        → (i : ℕ)
        → (if leb d i && ltb i (d + n)
            then get_elem? (set buf (d + n) b) (s + (i - d))
            else get_elem? (set buf (d + n) b) i)
          ≡ (if leb d i && ltb i (d + suc n) then get_elem? buf (s + (i - d)) else get_elem? buf i)
    shifted b e i = ground (
      arith,
      get_elem?-set buf (d + n) i b (omega arith),
      get_elem?-set buf (d + n) (s + (i - d)) b (omega arith),
    )

-- `memmove` of `n` bytes between any two ranges of one object, overlapping or not, reads and
-- writes inside the object; afterwards each byte of the target range is the byte that stood at its
-- place in the source range before, and every other byte is unchanged.
pub memmove-Moved :
    (buf : List ℕ) (d s n : ℕ)
    → d + n ≤ length buf
    → s + n ≤ length buf
    → (out : List ℕ) × (memmove buf d s n ≡ some out) × Moved buf d s n out
unfolding memmove
memmove-Moved buf d s n fits_d fits_s = elim (Bool-cases (ltb d s)) [
  | inl up ↦ rw up (copy_up-Moved n buf d s (ltb→lt _ _ up) fits_s)
  | inr not_up ↦ elim (Bool-cases (ltb s d)) [
    | inl down ↦ rw (not_up, down) (copy_down-Moved n buf d s (ltb→lt _ _ down) fits_d)
    | inr same ↦ rw (not_up, same) (buf, refl, (refl, λ i. ground arith))
  ]
]

-- `memcpy` of `n` bytes replaces the first `n` bytes of the target by those of the source.
pub memcpy-take-drop :
    (dest src : List ℕ) (n : ℕ)
    → n ≤ length dest
    → n ≤ length src
    → memcpy dest src n ≡ some (take n src ++ drop n dest)
unfolding memcpy
memcpy-take-drop dest src zero p q = refl
memcpy-take-drop [] src (suc n) p q = elim p [ ]
memcpy-take-drop (a ∷ dest) [] (suc n) p q = elim q [ ]
memcpy-take-drop (a ∷ dest) (b ∷ src) (suc n) p q =
    rw (memcpy-take-drop dest src n (omega arith) (omega arith))

-- A copy of more bytes than the source has.
pub memcpy-short : (dest src : List ℕ) (n : ℕ) → length src < n → memcpy dest src n ≡ none
unfolding memcpy
memcpy-short dest src zero h = absurd (omega arith)
memcpy-short [] src (suc n) h = refl
memcpy-short (d ∷ dest) [] (suc n) h = refl
memcpy-short (d ∷ dest) (b ∷ src) (suc n) h = rw (memcpy-short dest src n (omega arith)) refl
