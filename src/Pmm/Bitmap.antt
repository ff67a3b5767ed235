-- ===== src/Pmm/Bitmap.antt =====
-- The bits of the bitmap as the states of pages.
use dionnex.Base.{
  ℕ, zero, suc, ◌*◌, ◌/◌, ◌%◌, ◌^◌, ◌<◌, ◌≡◌, refl, ap, ◌∙◌, List, [], ◌∷◌, if◌then◌else◌, ◌==◌,
  get_or, set, length, arith, length-set,
}
use dionnex.Base.Bits.{bit, bit-shift, bit_and-one}
use dionnex.Base.Words.{
  set_bit, clear_bit, bit-set_bit, bit-clear_bit, set_bit-lt, clear_bit-lt, clear_bit-set_bit,
}
use dionnex.Pmm.{bitmap_set, bitmap_clear, bitmap_test}

-- 1 for a page in use, 0 for a free one.
abbrev pub used : List ℕ → ℕ → ℕ
used b page = bit (get_or b (page / 32) 0) (page % 32)

-- Every word has 32 bits.
abbrev pub AllWords : List ℕ → Type 0
AllWords [] = Unit
AllWords (w ∷ b) = (w < 2 ^ 32) × AllWords b

pub AllWords-get_or : (b : List ℕ) (i : ℕ) → AllWords b → get_or b i 0 < 2 ^ 32
AllWords-get_or [] i all = omega arith
AllWords-get_or (w ∷ b) zero all = all.0
AllWords-get_or (w ∷ b) (suc i) all = AllWords-get_or b i all.1

AllWords-set : (b : List ℕ) (i w : ℕ) → AllWords b → w < 2 ^ 32 → AllWords (set b i w)
AllWords-set [] i w all h = tt
AllWords-set (v ∷ b) zero w all h = (h, all.1)
AllWords-set (v ∷ b) (suc i) w all h = (all.0, AllWords-set b i w all.1 h)

get_or-set :
    (b : List ℕ) (i j w : ℕ)
    → i < length b
    → get_or (set b i w) j 0 ≡ (if i == j then w else get_or b j 0)
get_or-set [] i j w h = elim h [ ]
get_or-set (v ∷ b) zero zero w h = refl
get_or-set (v ∷ b) zero (suc j) w h = ground arith
get_or-set (v ∷ b) (suc i) zero w h = ground arith
get_or-set (v ∷ b) (suc i) (suc j) w h = ground (arith, get_or-set b i j w)

set-get_or : (b : List ℕ) (i : ℕ) → i < length b → set b i (get_or b i 0) ≡ b
set-get_or [] i h = elim h [ ]
set-get_or (v ∷ b) zero h = refl
set-get_or (v ∷ b) (suc i) h = ap (λ t. v ∷ t) (set-get_or b i (omega arith))

set-set : (b : List ℕ) (i v w : ℕ) → set (set b i v) i w ≡ set b i w
set-set [] i v w = refl
set-set (x ∷ b) zero v w = refl
set-set (x ∷ b) (suc i) v w = ap (λ t. x ∷ t) (set-set b i v w)

pub bitmap_test-used : (b : List ℕ) (page : ℕ) → bitmap_test b page ≡ used b page
unfolding bitmap_test
bitmap_test-used b page =
    bit_and-one (get_or b (page / 32) 0 / 2 ^ (page % 32))
    ∙ bit-shift (get_or b (page / 32) 0) (page % 32)

module _ (b : List ℕ) (page : ℕ) (inside : page < 32 * length b) where
  word_in : page / 32 < length b
  word_in = omega arith

  pub used-bitmap_set : (p : ℕ) → used (bitmap_set b page) p ≡ (if page == p then 1 else used b p)
  unfolding bitmap_set
  used-bitmap_set p = ground (
    arith,
    get_or-set b (page / 32) (p / 32) (set_bit (get_or b (page / 32) 0) (page % 32)) word_in,
    bit-set_bit (get_or b (page / 32) 0) (page % 32) (p % 32),
  )

  pub used-bitmap_clear :
      (p : ℕ) → used (bitmap_clear b page) p ≡ (if page == p then 0 else used b p)
  unfolding bitmap_clear
  used-bitmap_clear p = ground (
    arith,
    get_or-set b (page / 32) (p / 32) (clear_bit (get_or b (page / 32) 0) (page % 32)) word_in,
    bit-clear_bit (get_or b (page / 32) 0) (page % 32) (p % 32) (omega arith) (omega arith),
  )

  pub bitmap_clear-bitmap_set :
      AllWords b → used b page ≡ 0 → bitmap_clear (bitmap_set b page) page ≡ b
  unfolding bitmap_set bitmap_clear
  bitmap_clear-bitmap_set all free =
      let w = get_or b (page / 32) 0 in
      let at = get_or-set b (page / 32) (page / 32) (set_bit w (page % 32)) word_in in
      let here : get_or (set b (page / 32) (set_bit w (page % 32))) (page / 32) 0
          ≡ set_bit w (page % 32) =
        ground (arith, at) in
      let back =
        clear_bit-set_bit w (page % 32) (AllWords-get_or b (page / 32) all) (omega arith) free in
      rw here (rw back (set-set b (page / 32) _ w ∙ set-get_or b (page / 32) word_in))

pub bitmap_set-AllWords : (b : List ℕ) (page : ℕ) → AllWords b → AllWords (bitmap_set b page)
unfolding bitmap_set
bitmap_set-AllWords b page all =
    AllWords-set b (page / 32) _ all
      (set_bit-lt _ (page % 32) (AllWords-get_or b (page / 32) all) (omega arith))

pub bitmap_clear-AllWords : (b : List ℕ) (page : ℕ) → AllWords b → AllWords (bitmap_clear b page)
unfolding bitmap_clear
bitmap_clear-AllWords b page all =
    AllWords-set b (page / 32) _ all
      (clear_bit-lt _ (page % 32) (AllWords-get_or b (page / 32) all))

pub length-bitmap_set : (b : List ℕ) (page : ℕ) → length (bitmap_set b page) ≡ length b
unfolding bitmap_set
length-bitmap_set b page = length-set b _ _

pub length-bitmap_clear : (b : List ℕ) (page : ℕ) → length (bitmap_clear b page) ≡ length b
unfolding bitmap_clear
length-bitmap_clear b page = length-set b _ _
