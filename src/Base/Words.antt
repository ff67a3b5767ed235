-- ===== src/Base/Words.antt =====
-- Words of `n` bits: single bits set and cleared, complements, and equality by bits.
use Prim.Native.Nat.{bit_and, bit_or, bit_and-bitwise}
use native.Mathlib.Nat.{pow-suc}
use dionnex.Base.{
  ℕ, zero, suc, ◌-◌, ◌*◌, ◌/◌, ◌%◌, ◌^◌, ◌<◌, ◌≡◌, refl, ap, ◌∙◌, if◌then◌else◌, ◌==◌, arith, sym,
  inl, inr, Bool-cases,
}
use dionnex.Base.Bits.{
  bit, bit-lt_two, zero-bit, bit_and-halve, bit_or-halve, bit-bit_and, bit-bit_or,
}

pow_double : (n : ℕ) → 2 ^ suc n ≡ 2 * 2 ^ n
pow_double n = omega (arith, pow-suc 2 n)

pub pow_pos : (n : ℕ) → 0 < 2 ^ n
pow_pos zero = omega arith
pow_pos (suc n) = omega (arith, pow_double n, pow_pos n)

pub bit-pow : (k j : ℕ) → bit (2 ^ k) j ≡ (if k == j then 1 else 0)
bit-pow zero zero = refl
bit-pow zero (suc j) = zero-bit j ∙ ground arith
bit-pow (suc k) zero =
    let even : 2 ^ suc k % 2 ≡ 0 = omega (arith, pow_double k) in even ∙ ground arith
bit-pow (suc k) (suc j) =
    let back : 2 ^ suc k / 2 ≡ 2 ^ k = omega (arith, pow_double k) in
    rw back (bit-pow k j ∙ ground arith)

-- `~x` in `n` bits.
pub bit-complement : (n x j : ℕ) → x < 2 ^ n → j < n → bit (2 ^ n - 1 - x) j ≡ 1 - bit x j
bit-complement zero x j small lt = elim lt [ ]
bit-complement (suc n) x zero small lt = omega (arith, pow_double n, pow_pos n)
bit-complement (suc n) x (suc j) small lt =
    let half : (2 ^ suc n - 1 - x) / 2 ≡ 2 ^ n - 1 - x / 2 =
      omega (arith, pow_double n, pow_pos n) in
    rw half (bit-complement n (x / 2) j (omega (arith, pow_double n)) (omega arith))

pub bit_or-lt : (n a b : ℕ) → a < 2 ^ n → b < 2 ^ n → bit_or a b < 2 ^ n
bit_or-lt zero a b p q =
    let e : a ≡ 0 = omega arith in let f : b ≡ 0 = omega arith in rw (e, f) (omega arith)
bit_or-lt (suc n) a b p q =
    let half =
      bit_or-lt n (a / 2) (b / 2) (omega (arith, pow_double n)) (omega (arith, pow_double n)) in
    omega (arith, bit_or-halve a b, pow_double n, half)

pub bit_and-lt : (n a b : ℕ) → a < 2 ^ n → bit_and a b < 2 ^ n
bit_and-lt zero a b p =
    let none_set : a ≡ 0 = omega arith in
    let zero_and : bit_and 0 b ≡ 0 = bit_and-bitwise 0 b in rw none_set (omega (arith, zero_and))
bit_and-lt (suc n) a b p =
    let half = bit_and-lt n (a / 2) (b / 2) (omega (arith, pow_double n)) in
    omega (arith, bit_and-halve a b, pow_double n, half)

-- Numbers below 2 ^ n with the same bits are equal.
pub eq_of_bits : (n a b : ℕ) → a < 2 ^ n → b < 2 ^ n → ((j : ℕ) → j < n → bit a j ≡ bit b j) → a ≡ b
eq_of_bits zero a b p q same = omega arith
eq_of_bits (suc n) a b p q same =
    let half =
      eq_of_bits n (a / 2) (b / 2) (omega (arith, pow_double n)) (omega (arith, pow_double n))
        (λ j lt. same (suc j) (omega arith)) in
    let low : a % 2 ≡ b % 2 = same 0 (omega arith) in omega (arith, half, low)

-- `w |= 1U << k` and `w &= ~(1U << k)` on 32 bits.
abbrev pub set_bit : ℕ → ℕ → ℕ
set_bit w k = bit_or w (2 ^ k)

abbrev pub clear_bit : ℕ → ℕ → ℕ
clear_bit w k = bit_and w (2 ^ 32 - 1 - 2 ^ k)

pub bit-set_bit : (w k j : ℕ) → bit (set_bit w k) j ≡ (if k == j then 1 else bit w j)
bit-set_bit w k j = ground (arith, bit-bit_or w (2 ^ k) j, bit-pow k j, bit-lt_two w j)

pow_lt : (k n : ℕ) → k < n → 2 ^ k < 2 ^ n
pow_lt k zero h = elim h [ ]
pow_lt zero (suc n) h = omega (arith, pow_double n, pow_pos n)
pow_lt (suc k) (suc n) h = omega (arith, pow_double n, pow_double k, pow_lt k n (omega arith))

pub bit-clear_bit :
    (w k j : ℕ) → k < 32 → j < 32 → bit (clear_bit w k) j ≡ (if k == j then 0 else bit w j)
bit-clear_bit w k j hk hj =
    let mask = bit-complement 32 (2 ^ k) j (pow_lt k 32 hk) hj in
    ground (arith, bit-bit_and w (2 ^ 32 - 1 - 2 ^ k) j, mask, bit-pow k j, bit-lt_two w j)

pub set_bit-lt : (w k : ℕ) → w < 2 ^ 32 → k < 32 → set_bit w k < 2 ^ 32
set_bit-lt w k h hk = bit_or-lt 32 w (2 ^ k) h (pow_lt k 32 hk)

pub clear_bit-lt : (w k : ℕ) → w < 2 ^ 32 → clear_bit w k < 2 ^ 32
clear_bit-lt w k h = bit_and-lt 32 w (2 ^ 32 - 1 - 2 ^ k) h

-- Clearing a bit that was set from clear gives the word back.
pub clear_bit-set_bit :
    (w k : ℕ) → w < 2 ^ 32 → k < 32 → bit w k ≡ 0 → clear_bit (set_bit w k) k ≡ w
clear_bit-set_bit w k h hk was =
    eq_of_bits 32 (clear_bit (set_bit w k) k) w (clear_bit-lt (set_bit w k) k (set_bit-lt w k h hk))
      h λ j lt. bit-clear_bit (set_bit w k) k j hk lt ∙ same j
  where
    same : (j : ℕ) → (if k == j then 0 else bit (set_bit w k) j) ≡ bit w j
    same j = elim (Bool-cases (k == j)) [
      | inl here ↦ let e : k ≡ j = ground arith in rw here (sym was ∙ ap (bit w) e)
      | inr there ↦ rw there (bit-set_bit w k j ∙ rw there refl)
    ]
