-- ===== src/Strings/Number/Digits.antt =====
-- The loops of `utoa`: the digits that are written, lowest first, and the reversal in place.
use native.Mathlib.Nat.{div-lt_iff_lt-mul, div-add-mod, mod-lt, mul-le-mul_left, pow-suc, pow-zero}
use dionnex.Base.{
  ℕ, zero, suc, ◌+◌, ◌*◌, ◌/◌, ◌%◌, ◌^◌, ◌≤◌, ◌<◌, ◌≡◌, ◌≢◌, refl, ◌∙◌, ap, ap₂, true, inl, inr,
  Option, some, List, [], ◌∷◌, ◌++◌, map, if◌then◌else◌, ◌==◌, length, drop, arith, Bool-cases,
}
use dionnex.Strings.Memory.Cursor.{store-middle, snoc-append, length-snoc}
use dionnex.Strings.Number.{digit_char, put_digits}

-- The digits of a number in a base, lowest first, at least one.
unfoldable pub low_digits : ℕ → ℕ → ℕ → List ℕ
low_digits zero val base = []
low_digits (suc fuel) val base =
    let rest = low_digits fuel (val / base) base in
    (val % base) ∷ (if val / base == 0 then [] else rest)

-- The number that digits stand for, lowest first.
unfoldable pub low_value : ℕ → List ℕ → ℕ
low_value base [] = 0
low_value base (d ∷ ds) = low_value base ds * base + d

pub div-lt-pow : (base val fuel : ℕ) → 2 ≤ base → val < 2 ^ suc fuel → val / base < 2 ^ fuel
div-lt-pow base val fuel two fits =
    let step = mul-le-mul_left (2 ^ fuel) two in
    (div-lt_iff_lt-mul {k = base} {x = val} {y = 2 ^ fuel} (omega arith)).1
      (omega (arith, pow-suc 2 fuel, step))

pub low_value-low_digits :
    (fuel val base : ℕ)
    → 2 ≤ base
    → val < 2 ^ fuel
    → low_value base (low_digits fuel val base) ≡ val
unfolding low_value low_digits
low_value-low_digits zero val base two fits = omega arith
low_value-low_digits (suc fuel) val base two fits = elim (Bool-cases (val / base == 0)) [
  | inl stop ↦
      let none_left : val / base ≡ 0 = ground arith in
      rw stop (omega (arith, div-add-mod val base, ap (λ (t : ℕ). base * t) none_left))
  | inr go ↦
      let ih =
        low_value-low_digits fuel (val / base) base two (div-lt-pow base val fuel two fits) in
      rw go (omega (arith, div-add-mod val base, ap (λ (t : ℕ). t * base) ih))
]

pub length-low_digits_pos : (fuel val base : ℕ) → 0 < length (low_digits (suc fuel) val base)
unfolding low_digits
length-low_digits_pos fuel val base = ground arith

pub length-low_digits : (fuel val base : ℕ) → length (low_digits fuel val base) ≤ fuel
unfolding low_digits
length-low_digits zero val base = omega arith
length-low_digits (suc fuel) val base = ground (arith, length-low_digits fuel (val / base) base)

-- What `put_digits` leaves: the characters of the digits behind `pre`, and the rest of the buffer.
abbrev pub Put : List ℕ → List ℕ → List ℕ → Option (List ℕ × ℕ) → Type 0
Put pre ds room run =
    run ≡ some (pre ++ (map digit_char ds ++ drop (length ds) room), length pre + length ds)

fuel_pos : (fuel n : ℕ) → n ≢ 0 → n < 2 ^ fuel → 0 < fuel
fuel_pos zero n ne lt = omega arith
fuel_pos (suc fuel) n ne lt = omega arith

Put-cons :
    (pre : List ℕ) (d x : ℕ) (ds room : List ℕ) (run : Option (List ℕ × ℕ))
    → run
      ≡ some (
        (pre ++ (digit_char d ∷ [])) ++ (map digit_char ds ++ drop (length ds) room),
        length pre + 1 + length ds,
      )
    → Put pre (d ∷ ds) (x ∷ room) run
Put-cons pre d x ds room run e =
    e ∙ ap₂ (λ (a : List ℕ) (n : ℕ). some (a, n)) (snoc-append pre (digit_char d) _) (omega arith)

pub put_digits-low_digits :
    (fuel val base : ℕ) (pre room : List ℕ)
    → 2 ≤ base
    → val < 2 ^ fuel
    → 0 < fuel
    → length (low_digits fuel val base) ≤ length room
    → Put pre (low_digits fuel val base) room (put_digits fuel val base (pre ++ room) (length pre))
unfolding put_digits low_digits
put_digits-low_digits zero val base pre room two fits start place = elim start [ ]
put_digits-low_digits (suc fuel) val base pre [] two fits start place = elim place [ ]
put_digits-low_digits (suc fuel) val base pre (x ∷ room) two fits start place =
    elim (Bool-cases (val / base == 0)) [
      | inl stop ↦ rw (store-middle pre x c room, stop) refl
      | inr go ↦
          let fits' = div-lt-pow base val fuel two fits in
          let start' = fuel_pos fuel (val / base) (ground arith) fits' in
          let ih =
            put_digits-low_digits fuel (val / base) base (pre ++ (c ∷ [])) room two fits' start'
              (omega (arith, rw go at place)) in
          let whole = rw (snoc-append pre c room, length-snoc pre c) at ih in
          rw (store-middle pre x c room, go) (Put-cons pre (val % base) x ds room _ whole)
    ]
  where
    c : ℕ
    c = digit_char (val % base)

    ds : List ℕ
    ds = low_digits fuel (val / base) base

-- A number below `base ^ k` has at most `k` digits.
pub length-low_digits_le :
    (fuel val base k : ℕ)
    → 2 ≤ base
    → 0 < k
    → val < base ^ k
    → length (low_digits fuel val base) ≤ k
unfolding low_digits
length-low_digits_le zero val base k two pos fits = omega arith
length-low_digits_le (suc fuel) val base zero two pos fits = elim pos [ ]
length-low_digits_le (suc fuel) val base (suc zero) two pos fits =
    let stop : (val / base == 0) ≡ true =
      stopped (omega (arith, pow-suc base 0, ap (λ (t : ℕ). t * base) (pow-zero base))) in
    rw stop (omega arith)
  where
    stopped : val < base → (val / base == 0) ≡ true
    stopped lt =
        let none_left =
          (div-lt_iff_lt-mul {k = base} {x = val} {y = 1} (omega arith)).1 (omega arith) in
        ground arith
length-low_digits_le (suc fuel) val base (suc (suc k)) two pos fits =
    let fits' : val / base < base ^ suc k =
      (div-lt_iff_lt-mul {k = base} {x = val} {y = base ^ suc k} (omega arith)).1
        (omega (arith, pow-suc base (suc k))) in
    let rest = length-low_digits_le fuel (val / base) base (suc k) two (omega arith) fits' in
    ground (arith, rest)

-- The digits of a base, each below it.
unfoldable pub Below : ℕ → List ℕ → Type 0
Below base [] = Unit
Below base (d ∷ ds) = (d < base) × Below base ds

pub low_digits-Below : (fuel val base : ℕ) → 2 ≤ base → Below base (low_digits fuel val base)
unfolding low_digits Below
low_digits-Below zero val base two = tt
low_digits-Below (suc fuel) val base two = elim (Bool-cases (val / base == 0)) [
  | inl stop ↦ rw stop (mod-lt val (omega arith), tt)
  | inr go ↦ rw go (mod-lt val (omega arith), low_digits-Below fuel (val / base) base two)
]
