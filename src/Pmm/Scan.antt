-- ===== src/Pmm/Scan.antt =====
-- The scan of `pmm_alloc_page` finds the first free page.
use Prim.Native.Nat.{bit_and}
use dionnex.Base.{
  ℕ, zero, suc, ◌+◌, ◌-◌, ◌*◌, ◌/◌, ◌%◌, ◌^◌, ◌≤◌, ◌<◌, ◌≡◌, refl, ap, sym, ◌∙◌, inl, inr, Option,
  none, some, List, ltb, ◌==◌, get_or, arith, Bool-cases, Option-cases,
}
use dionnex.Base.Bits.{bit, bit-lt_two, bit_and-pow, zero-bit}
use dionnex.Base.Words.{eq_of_bits, pow_pos, bit-complement}
use dionnex.Pmm.{find_clear, find_page}
use dionnex.Pmm.Bitmap.{used, AllWords, AllWords-get_or}

-- The first index from `i` on, with `n` to go, at which `f` is 0.
abbrev pub IsFirst : (ℕ → ℕ) → ℕ → ℕ → Option ℕ → Type 0
IsFirst f i n none = (k : ℕ) → i ≤ k → k < i + n → f k ≡ 1
IsFirst f i n (some r) = (i ≤ r) × (r < i + n) × (f r ≡ 0) × ((k : ℕ) → i ≤ k → k < r → f k ≡ 1)

clear_iff : (w j : ℕ) → (bit_and w (2 ^ j) == 0) ≡ (bit w j == 0)
clear_iff w j = elim (Bool-cases (bit w j == 0)) [
  | inl clear ↦
      let e : bit w j ≡ 0 = ground arith in
      let z : bit_and w (2 ^ j) ≡ 0 = bit_and-pow w j ∙ ap (λ (t : ℕ). t * 2 ^ j) e ∙ omega arith in
      rw (clear, z) refl
  | inr set ↦
      let e : bit w j ≡ 1 = ground (arith, bit-lt_two w j) in
      let z : bit_and w (2 ^ j) ≡ 1 * 2 ^ j = bit_and-pow w j ∙ ap (λ (t : ℕ). t * 2 ^ j) e in
      rw set (ground (arith, pow_pos j, z))
]

-- A run of ones in front does not matter.
IsFirst-skip :
    (f : ℕ → ℕ) (m i i' n n' : ℕ) (o : Option ℕ)
    → i' ≡ i + m
    → n' ≡ m + n
    → ((k : ℕ) → i ≤ k → k < i + m → f k ≡ 1)
    → IsFirst f i' n o
    → IsFirst f i n' o
IsFirst-skip f m i i' n n' none at total ones first = λ k lo hi. elim (Bool-cases (ltb k i')) [
  | inl front ↦ ones k lo (ground arith)
  | inr back ↦ first k (ground arith) (omega arith)
]
IsFirst-skip f m i i' n n' (some r) at total ones first = (
  omega arith,
  omega arith,
  first.2,
  λ k lo hi. elim (Bool-cases (ltb k i')) [
    | inl front ↦ ones k lo (ground arith)
    | inr back ↦ first.3 k (ground arith) hi
  ],
)

find_clear-IsFirst : (w j n : ℕ) → IsFirst (bit w) j n (find_clear w j n)
unfolding find_clear
find_clear-IsFirst w j zero = λ k lo hi. absurd (omega arith)
find_clear-IsFirst w j (suc n) = elim (Bool-cases (bit w j == 0)) [
  | inl clear ↦
      rw (clear_iff w j, clear)
        (omega arith, omega arith, ground arith, λ k lo hi. absurd (omega arith))
  | inr set ↦
      rw (clear_iff w j, set)
        (IsFirst-skip (bit w) 1 j (j + 1) n (suc n) (find_clear w (j + 1) n) refl (omega arith)
          (alone (ground (arith, bit-lt_two w j))) (find_clear-IsFirst w (j + 1) n))
]
  where
    alone : bit w j ≡ 1 → (k : ℕ) → j ≤ k → k < j + 1 → bit w k ≡ 1
    alone one k lo hi = let same : k ≡ j = omega arith in rw same one

pub bit-ones : (j : ℕ) → j < 32 → bit 0xFFFFFFFF j ≡ 1
bit-ones j lt = omega (arith, bit-complement 32 0 j (omega arith) lt, zero-bit j)

-- A word that is not all ones has a clear bit.
find_clear-none : (w : ℕ) → w < 2 ^ 32 → find_clear w 0 32 ≡ none → w ≡ 0xFFFFFFFF
find_clear-none w small e =
    eq_of_bits 32 w 0xFFFFFFFF small (omega arith)
      λ j lt. (rw e at (find_clear-IsFirst w 0 32)) j (omega arith) lt ∙ sym (bit-ones j lt)

-- The pages of word `i`.
used-word :
    (b : List ℕ) (i p : ℕ)
    → i * 32 ≤ p
    → p < i * 32 + 32
    → used b p ≡ bit (get_or b i 0) (p - i * 32)
used-word b i p lo hi =
    let word : p / 32 ≡ i = omega arith in
    let place : p % 32 ≡ p - i * 32 = omega arith in rw (word, place) refl

module _ (b : List ℕ) (i n : ℕ) where
  full_word :
      (o : Option ℕ)
      → get_or b i 0 ≡ 0xFFFFFFFF
      → IsFirst (used b) ((i + 1) * 32) (n * 32) o
      → IsFirst (used b) (i * 32) (suc n * 32) o
  full_word o full rest =
      IsFirst-skip (used b) 32 (i * 32) ((i + 1) * 32) (n * 32) (suc n * 32) o (omega arith)
        (omega arith)
        (λ k lo hi.
          used-word b i k lo hi
          ∙ ap (λ w. bit w (k - i * 32)) full
          ∙ bit-ones (k - i * 32) (omega arith))
        rest

  found_in_word :
      (j : ℕ)
      → IsFirst (bit (get_or b i 0)) 0 32 (some j)
      → IsFirst (used b) (i * 32) (suc n * 32) (some (i * 32 + j))
  found_in_word j first =
      let back : i * 32 + j - i * 32 ≡ j = omega arith in
      (
        omega arith,
        omega arith,
        used-word b i (i * 32 + j) (omega arith) (omega arith)
            ∙ ap (bit (get_or b i 0)) back
            ∙ first.2,
        λ k lo hi.
            used-word b i k lo (omega arith) ∙ first.3 (k - i * 32) (omega arith) (omega arith),
      )

-- The scan of `n` words from word `i` on finds the first free page among theirs.
pub find_page-IsFirst :
    (b : List ℕ) (i n : ℕ) → AllWords b → IsFirst (used b) (i * 32) (n * 32) (find_page b i n)
unfolding find_page
find_page-IsFirst b i zero all = λ k lo hi. absurd (omega arith)
find_page-IsFirst b i (suc n) all =
    let rest = find_page-IsFirst b (i + 1) n all in
    let w = get_or b i 0 in
    elim (Bool-cases (w == 0xFFFFFFFF)) [
      | inl full ↦ rw full (full_word b i n (find_page b (i + 1) n) (ground arith) rest)
      | inr some_clear ↦ elim (Option-cases (find_clear w 0 32)) [
        | inl e ↦ let ones = find_clear-none w (AllWords-get_or b i all) e in absurd (ground arith)
        | inr (j, e) ↦
            rw some_clear
              (rw (e, find_page) (found_in_word b i n j (rw e at (find_clear-IsFirst w 0 32))))
      ]
    ]
