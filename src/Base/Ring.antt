-- ===== src/Base/Ring.antt =====
-- Circular buffers: the run of `n` places from `h` on, going round at `size`.
use native.Mathlib.Nat.{mod-add-mod, mod-eq_of_lt, mod-eq-sub-mod, mod-lt}
use dionnex.Base.{
  ℕ, zero, suc, ◌+◌, ◌-◌, ◌%◌, ◌≤◌, ◌<◌, ◌≡◌, ◌≢◌, refl, ap, ap₂, ◌∙◌, inl, inr, List, [], ◌∷◌,
  ◌++◌, get_or, set, length, drop, arith, ltb, Bool-cases,
}

abbrev pub window : List ℕ → ℕ → ℕ → ℕ → List ℕ
window buf size h zero = []
window buf size h (suc n) = get_or buf h 0 ∷ window buf size ((h + 1) % size) n

pub length-window : (buf : List ℕ) (size h n : ℕ) → length (window buf size h n) ≡ n
length-window buf size h zero = refl
length-window buf size h (suc n) = ap suc (length-window buf size ((h + 1) % size) n)

get_or-set_self : (xs : List ℕ) (i v : ℕ) → i < length xs → get_or (set xs i v) i 0 ≡ v
get_or-set_self [] i v h = elim h [ ]
get_or-set_self (x ∷ xs) zero v h = refl
get_or-set_self (x ∷ xs) (suc i) v h = get_or-set_self xs i v (omega arith)

get_or-set_ne : (xs : List ℕ) (i j v : ℕ) → i ≢ j → get_or (set xs i v) j 0 ≡ get_or xs j 0
get_or-set_ne [] i j v h = refl
get_or-set_ne (x ∷ xs) zero zero v h = absurd (h refl)
get_or-set_ne (x ∷ xs) zero (suc j) v h = refl
get_or-set_ne (x ∷ xs) (suc i) zero v h = refl
get_or-set_ne (x ∷ xs) (suc i) (suc j) v h = get_or-set_ne xs i j v (λ e. h (ap suc e))

-- Fewer than `size` steps do not come back to the start.
step_ne : (size h k : ℕ) → h < size → suc k < size → (h + suc k) % size ≢ h
step_ne size h k lt fewer = elim (Bool-cases (ltb (h + suc k) size)) [
  | inl near ↦ let p : h + suc k < size = ground arith in omega (arith, mod-eq_of_lt p)
  | inr round ↦
      let p : size ≤ h + suc k = ground arith in
      let q : h + suc k - size < size = omega arith in
      omega (arith, mod-eq-sub-mod p, mod-eq_of_lt q)
]

step_shift : (size h n : ℕ) → (h + suc n) % size ≡ ((h + 1) % size + n) % size
step_shift size h n = rw mod-add-mod (ap (λ k. k % size) (omega arith))

-- A write just behind a run that leaves a place free extends the run.
pub window-extend :
    (buf : List ℕ) (size c n h i : ℕ)
    → size ≤ length buf
    → h < size
    → n < size
    → i ≡ (h + n) % size
    → window (set buf i c) size h (suc n) ≡ window buf size h n ++ (c ∷ [])
window-extend buf size c zero h i fits lt fewer e =
    let at : i ≡ h = e ∙ ap (λ k. k % size) (omega arith) ∙ mod-eq_of_lt lt in
    rw at (rw (get_or-set_self buf h c (omega arith)) refl)
window-extend buf size c (suc n) h i fits lt fewer e =
    let ne : i ≢ h = λ same. step_ne size h n lt fewer (ground arith) in
    ap₂ ◌∷◌ (get_or-set_ne buf i h c ne) (
      window-extend buf size c n ((h + 1) % size) i fits (mod-lt (h + 1) (omega arith))
        (omega arith) (e ∙ step_shift size h n))

-- A write over the oldest place of a full run drops it and appends.
pub window-overwrite :
    (buf : List ℕ) (size c n h i : ℕ)
    → size ≤ length buf
    → h < size
    → n ≡ size
    → i ≡ (h + n) % size
    → window (set buf i c) size ((h + 1) % size) n ≡ drop 1 (window buf size h n) ++ (c ∷ [])
window-overwrite buf size c zero h i fits lt full e = absurd (omega arith)
window-overwrite buf size c (suc n) h i fits lt full e =
    window-extend buf size c n ((h + 1) % size) i fits (mod-lt (h + 1) (omega arith)) (omega arith)
      (e ∙ step_shift size h n)
