-- ===== src/Base/Bits.antt =====
-- The bits of a word: what `|`, `&` and shifts do to each of them.
use Prim.Native.Nat.{
  ℕ, zero, suc, ◌+◌, ◌*◌, ◌/◌, ◌%◌, ◌^◌, ◌≤◌, ◌<◌, min, max, bit_and, bit_or, digits,
  bit_and-bitwise, bit_or-bitwise,
}
use mathlib.Core.Path.{◌≡◌, refl, ap, ◌∙◌}
use native.Mathlib.Omega.{arith}
use native.Mathlib.Nat.{pow-suc, div-div-eq-div-mul}

-- The bit of weight 2 ^ k.
abbrev pub bit : ℕ → ℕ → ℕ
bit w zero = w % 2
bit w (suc k) = bit (w / 2) k

pub bit-lt_two : (w k : ℕ) → bit w k < 2
bit-lt_two w zero = omega arith
bit-lt_two w (suc k) = bit-lt_two (w / 2) k

pub zero-bit : (k : ℕ) → bit 0 k ≡ 0
zero-bit zero = refl
zero-bit (suc k) = zero-bit k

-- The fuel of the native operations' definition, once it suffices, does not matter.
digits_stable :
    (z : ℕ → ℕ) (f : ℕ → ℕ → ℕ) (n m a b : ℕ) → a ≤ n → a ≤ m → digits z f n a b ≡ digits z f m a b
digits_stable z f zero zero zero b p q = refl
digits_stable z f zero zero (suc a) b p q = elim p [ ]
digits_stable z f zero (suc m) zero b p q = refl
digits_stable z f zero (suc m) (suc a) b p q = elim p [ ]
digits_stable z f (suc n) zero zero b p q = refl
digits_stable z f (suc n) zero (suc a) b p q = elim q [ ]
digits_stable z f (suc n) (suc m) zero b p q = refl
digits_stable z f (suc n) (suc m) (suc a) b p q =
    let half = digits_stable z f n m (suc a / 2) (b / 2) (omega arith) (omega arith) in
    omega (arith, half)

pub bit_and-halve : (a b : ℕ) → bit_and a b ≡ min (a % 2) (b % 2) + 2 * bit_and (a / 2) (b / 2)
bit_and-halve zero b = rw (bit_and-bitwise 0 b, bit_and-bitwise 0 (b / 2)) (omega arith)
bit_and-halve (suc a) b = omega (
  arith,
  bit_and-bitwise (suc a) b,
  bit_and-bitwise (suc a / 2) (b / 2),
  digits_stable (λ y. 0) min a (suc a / 2) (suc a / 2) (b / 2) (omega arith) (omega arith),
)

pub bit_or-halve : (a b : ℕ) → bit_or a b ≡ max (a % 2) (b % 2) + 2 * bit_or (a / 2) (b / 2)
bit_or-halve zero b = rw (bit_or-bitwise 0 b, bit_or-bitwise 0 (b / 2)) (omega arith)
bit_or-halve (suc a) b = omega (
  arith,
  bit_or-bitwise (suc a) b,
  bit_or-bitwise (suc a / 2) (b / 2),
  digits_stable (λ y. y) max a (suc a / 2) (suc a / 2) (b / 2) (omega arith) (omega arith),
)

pub bit-bit_and : (a b k : ℕ) → bit (bit_and a b) k ≡ min (bit a k) (bit b k)
bit-bit_and a b zero = omega (arith, bit_and-halve a b)
bit-bit_and a b (suc k) =
    let half : bit_and a b / 2 ≡ bit_and (a / 2) (b / 2) = omega (arith, bit_and-halve a b) in
    rw half (bit-bit_and (a / 2) (b / 2) k)

pub bit-bit_or : (a b k : ℕ) → bit (bit_or a b) k ≡ max (bit a k) (bit b k)
bit-bit_or a b zero = omega (arith, bit_or-halve a b)
bit-bit_or a b (suc k) =
    let half : bit_or a b / 2 ≡ bit_or (a / 2) (b / 2) = omega (arith, bit_or-halve a b) in
    rw half (bit-bit_or (a / 2) (b / 2) k)

bit_and-zero : (a : ℕ) (n : ℕ) → a ≤ n → bit_and a 0 ≡ 0
bit_and-zero zero n h = refl
bit_and-zero (suc a) zero h = elim h [ ]
bit_and-zero (suc a) (suc n) h =
    omega (arith, bit_and-halve (suc a) 0, bit_and-zero (suc a / 2) n (omega arith))

-- `w & 1` is the lowest bit.
pub bit_and-one : (a : ℕ) → bit_and a 1 ≡ a % 2
bit_and-one a = omega (arith, bit_and-halve a 1, bit_and-zero (a / 2) a (omega arith))

-- `w & (1U << k)` is the bit in its place.
pub bit_and-pow : (w k : ℕ) → bit_and w (2 ^ k) ≡ bit w k * 2 ^ k
bit_and-pow w zero = omega (arith, bit_and-one w)
bit_and-pow w (suc k) =
    let two : 2 ^ suc k ≡ 2 * 2 ^ k = omega (arith, pow-suc 2 k) in
    let back : 2 ^ suc k / 2 ≡ 2 ^ k = omega arith in
    let even : 2 ^ suc k % 2 ≡ 0 = omega arith in
    omega (
      arith,
      rw (back, even) at (bit_and-halve w (2 ^ suc k)),
      bit_and-pow (w / 2) k,
      ap (λ (t : ℕ). bit (w / 2) k * t) two,
    )

-- `w >> k`, one place at a time.
pub bit-shift : (w k : ℕ) → (w / 2 ^ k) % 2 ≡ bit w k
bit-shift w zero = omega arith
bit-shift w (suc k) =
    let two : 2 ^ suc k ≡ 2 * 2 ^ k = omega (arith, pow-suc 2 k) in
    rw two (rw (← div-div-eq-div-mul) (bit-shift (w / 2) k))

bit_or-zero_up_to : (n a : ℕ) → a ≤ n → bit_or a 0 ≡ a
bit_or-zero_up_to n zero h = bit_or-bitwise 0 0
bit_or-zero_up_to zero (suc a) h = elim h [ ]
bit_or-zero_up_to (suc n) (suc a) h =
    omega (arith, bit_or-halve (suc a) 0, bit_or-zero_up_to n (suc a / 2) (omega arith))

pub bit_or-zero : (a : ℕ) → bit_or a 0 ≡ a
bit_or-zero a = bit_or-zero_up_to a a (omega arith)

-- `(q << k) | r` adds, when `r` lies below bit `k`.
pub bit_or-add : (k q r : ℕ) → r < 2 ^ k → bit_or (q * 2 ^ k) r ≡ q * 2 ^ k + r
bit_or-add zero q r h =
    let none_left : r ≡ 0 = omega arith in
    let whole : q * 2 ^ 0 ≡ q = omega arith in rw (none_left, whole) (bit_or-zero q ∙ omega arith)
bit_or-add (suc k) q r h =
    let two : 2 ^ suc k ≡ 2 * 2 ^ k = omega (arith, pow-suc 2 k) in
    let double : q * 2 ^ suc k ≡ 2 * (q * 2 ^ k) = omega (arith, ap (λ (t : ℕ). q * t) two) in
    let back : q * 2 ^ suc k / 2 ≡ q * 2 ^ k = omega arith in
    let even : q * 2 ^ suc k % 2 ≡ 0 = omega arith in
    let low : r / 2 < 2 ^ k = omega arith in
    omega (arith, rw (back, even) at (bit_or-halve (q * 2 ^ suc k) r), bit_or-add k q (r / 2) low)
