-- ===== src/Vga/Numbers.antt =====
-- The numbers on the screen.
use dionnex.Base.{
  ℕ, zero, suc, ◌+◌, ◌/◌, ◌%◌, ◌^◌, ◌<◌, ◌≡◌, refl, sym, ap, ◌∙◌, inl, inr, false, some, List, [],
  ◌∷◌, map, ◌==◌, arith, Bool-cases, Option-cases,
}
use native.Mathlib.Nat.{pow-suc}
use dionnex.Strings.Number.{digit_char}
use dionnex.Strings.Number.Digits.{low_digits, div-lt-pow}
use dionnex.Strings.Number.Print.{printed}
use dionnex.Printk.Digits.{backwards-reverse_aux, low_digits_more, low_digits_last}
use dionnex.Vga.{Vga, vga_putchar, vga_write, dec_digits, vga_write_dec}

decimal_digit : (d : ℕ) → d < 10 → b'0' + d ≡ digit_char d
unfolding digit_char
decimal_digit d h = ground arith

dec_digits_more :
    (n val : ℕ) (buf : List ℕ)
    → 0 < val
    → dec_digits n (val / 10) ≡ some buf
    → dec_digits (suc n) val ≡ some (digit_char (val % 10) ∷ buf)
unfolding dec_digits
dec_digits_more n val buf pos run =
    let there : (val == 0) ≡ false = ground arith in
    rw (there, run) (ap (λ (c : ℕ). some (c ∷ buf)) (decimal_digit (val % 10) (omega arith)))

dec_digits-zero : (n : ℕ) → dec_digits n 0 ≡ some []
unfolding dec_digits
dec_digits-zero zero = refl
dec_digits-zero (suc n) = refl

dec_digits-low_digits :
    (fuel n val : ℕ)
    → 0 < val
    → val < 10 ^ n
    → val < 2 ^ fuel
    → dec_digits n val ≡ some (map digit_char (low_digits fuel val 10))
dec_digits-low_digits zero n val pos ten two = absurd (omega arith)
dec_digits-low_digits (suc fuel) zero val pos ten two = absurd (omega arith)
dec_digits-low_digits (suc fuel) (suc n) val pos ten two = elim (Bool-cases (val / 10 == 0)) [
  | inl stop ↦
      let last : val / 10 ≡ 0 = ground (arith, stop) in
      rw (low_digits_last fuel val 10 stop)
        (dec_digits_more n val [] pos (ap (dec_digits n) last ∙ dec_digits-zero n))
  | inr go ↦
      let small : val / 10 < 10 ^ n = omega (arith, pow-suc 10 n) in
      rw (low_digits_more fuel val 10 go) (
        dec_digits_more n val (map digit_char (low_digits fuel (val / 10) 10)) pos (
          dec_digits-low_digits fuel n (val / 10) (ground (arith, go)) small
            (div-lt-pow 10 val fuel (omega arith) two)))
]

zero_shown : printed 0 10 [] ≡ b'0' ∷ []
unfolding printed low_digits digit_char
zero_shown = refl

vga_write-one : (v : Vga) (c : ℕ) → vga_write v (c ∷ []) ≡ vga_putchar v c
unfolding vga_write
vga_write-one v c = elim (Option-cases (vga_putchar v c)) [
  | inl fault ↦ rw fault refl
  | inr (v', run) ↦ rw run refl
]

-- `vga_write_dec` of a number of 32 bits writes the text that `utoa` prints in base 10.
pub vga_write_dec-vga_write :
    (v : Vga) (val : ℕ) → val < 2 ^ 32 → vga_write_dec v val ≡ vga_write v (printed val 10 [])
unfolding vga_write_dec
vga_write_dec-vga_write v val word = elim (Bool-cases (val == 0)) [
  | inl null ↦
      let e : val ≡ 0 = ground (arith, null) in
      rw e (sym (vga_write-one v b'0') ∙ ap (vga_write v) (sym zero_shown))
  | inr there ↦
      let run =
        dec_digits-low_digits 34 12 val (ground (arith, there)) (omega arith) (omega arith) in
      rw (there, run)
        (ap (vga_write v) (
          backwards-reverse_aux (map digit_char (low_digits 34 val 10)) []
          ∙ unfold printed in refl))
]
