-- ===== src/Printk/Digits.antt =====
-- The numbers that `printk` prints.
use mathlib.Core.List.{reverse_aux}
use dionnex.Base.{
  ℕ, zero, suc, ◌/◌, ◌%◌, ◌^◌, ◌≤◌, ◌<◌, ◌≡◌, refl, ap, ◌∙◌, inl, inr, Bool, true, false, some,
  List, [], ◌∷◌, map, ◌==◌, get_elem?, get_or, ◌&&◌, arith, Bool-cases,
}
use native.Mathlib.Nat.{mod-lt, zero-div, zero-mod}
use dionnex.Base.Places.{get_elem?_total}
use dionnex.Strings.Number.{digit_char, rounds}
use dionnex.Strings.Number.Digits.{low_digits, div-lt-pow}
use dionnex.Strings.Number.Print.{printed}
use dionnex.Printk.{digits_lower, tmp_digits, backwards, printk_utoa}

pub backwards-reverse_aux : (tmp out : List ℕ) → backwards tmp out ≡ reverse_aux tmp out
unfolding backwards
backwards-reverse_aux [] out = refl
backwards-reverse_aux (d ∷ tmp) out = backwards-reverse_aux tmp (d ∷ out)

-- The table of digits, up to `n`.
same_digits : ℕ → Bool
same_digits zero = true
same_digits (suc n) = same_digits n && get_or digits_lower n 0 == digit_char n

same_digits-get_or :
    (n d : ℕ) → same_digits n ≡ true → d < n → get_or digits_lower d 0 ≡ digit_char d
unfolding same_digits
same_digits-get_or zero d all lt = elim lt [ ]
same_digits-get_or (suc n) d all lt = elim (Bool-cases (d == n)) [
  | inl here ↦ let e : d ≡ n = ground (arith, here) in rw e (ground (arith, all))
  | inr below ↦ same_digits-get_or n d (ground (arith, all)) (ground (arith, below))
]

sixteen : same_digits 16 ≡ true
unfolding same_digits digit_char
sixteen = refl

digits_lower-digit_char : (d : ℕ) → d < 16 → get_elem? digits_lower d ≡ some (digit_char d)
digits_lower-digit_char d h =
    let (c, found) = get_elem?_total digits_lower d h in
    found ∙ ap some (get_or_of digits_lower d c found ∙ same_digits-get_or 16 d sixteen h)
  where
    get_or_of : (xs : List ℕ) (i c : ℕ) → get_elem? xs i ≡ some c → c ≡ get_or xs i 0
    get_or_of [] i c e = absurd (ground (arith, e))
    get_or_of (x ∷ xs) zero c e = ground (arith, e)
    get_or_of (x ∷ xs) (suc i) c e = get_or_of xs i c e

-- One round of each loop.
tmp_digits_round :
    (fuel val base : ℕ) (tmp : List ℕ)
    → 2 ≤ base
    → base ≤ 16
    → 0 < val
    → tmp_digits fuel digits_lower (val / base) base ≡ some tmp
    → tmp_digits (suc fuel) digits_lower val base ≡ some (digit_char (val % base) ∷ tmp)
unfolding tmp_digits
tmp_digits_round fuel val base tmp two top pos e =
    let some_left : (val == 0) ≡ false = ground (arith, pos) in
    let below : val % base < base = mod-lt val (omega arith) in
    let digit = digits_lower-digit_char (val % base) (omega (arith, below)) in
    rw (some_left, digit) (rw e refl)

tmp_digits-zero : (fuel base : ℕ) → tmp_digits (suc fuel) digits_lower 0 base ≡ some []
unfolding tmp_digits
tmp_digits-zero fuel base = refl

pub low_digits_more :
    (fuel val base : ℕ)
    → (val / base == 0) ≡ false
    → low_digits (suc fuel) val base ≡ (val % base) ∷ low_digits fuel (val / base) base
unfolding low_digits
low_digits_more fuel val base go = rw go refl

pub low_digits_last :
    (fuel val base : ℕ)
    → (val / base == 0) ≡ true
    → low_digits (suc fuel) val base ≡ (val % base) ∷ []
unfolding low_digits
low_digits_last fuel val base stop = rw stop refl

-- The digits are those of `utoa`.
tmp_digits-low_digits :
    (fuel val base : ℕ)
    → 2 ≤ base
    → base ≤ 16
    → val < 2 ^ fuel
    → 0 < val
    → tmp_digits (suc fuel) digits_lower val base ≡ some (map digit_char (low_digits fuel val base))
tmp_digits-low_digits zero val base two top fits pos = absurd (omega arith)
tmp_digits-low_digits (suc fuel) val base two top fits pos = elim (Bool-cases (val / base == 0)) [
  | inl stop ↦
      let last : val / base ≡ 0 = ground (arith, stop) in
      rw (low_digits_last fuel val base stop)
        (tmp_digits_round (suc fuel) val base [] two top pos (rw last (tmp_digits-zero fuel base)))
  | inr go ↦
      let rest =
        tmp_digits-low_digits fuel (val / base) base two top (div-lt-pow base val fuel two fits)
          (ground (arith, go)) in
      rw (low_digits_more fuel val base go)
        (tmp_digits_round (suc fuel) val base _ two top pos rest)
]

zero_text :
    (base : ℕ) → 2 ≤ base → b'0' ∷ [] ≡ reverse_aux (map digit_char (low_digits rounds 0 base)) []
unfolding digit_char
zero_text base two =
    let none_left : 0 / base ≡ 0 = zero-div base in
    let low : 0 % base ≡ 0 = zero-mod base in
    let stop : (0 / base == 0) ≡ true = rw none_left refl in
    rw (low_digits_last 33 0 base stop, low) refl

-- `printk_utoa` of a number of 32 bits leaves the text that `utoa` prints.
pub printk_utoa-printed :
    (val base : ℕ)
    → 2 ≤ base
    → base ≤ 16
    → val < 2 ^ 32
    → printk_utoa val base false ≡ some (printed val base [])
unfolding printk_utoa printed
printk_utoa-printed val base two top fits = elim (Bool-cases (val == 0)) [
  | inl null ↦ let e : val ≡ 0 = ground (arith, null) in rw e (ap some (zero_text base two))
  | inr there ↦
      let run = tmp_digits-low_digits 34 val base two top (omega arith) (ground (arith, there)) in
      rw (there, run) (ap some (backwards-reverse_aux (map digit_char (low_digits 34 val base)) []))
]
