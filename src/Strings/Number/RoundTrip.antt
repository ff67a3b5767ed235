-- ===== src/Strings/Number/RoundTrip.antt =====
-- `atoi` and `atox` read back the number that `utoa` printed.
use mathlib.Core.List.{reverse_aux}
use Prim.Native.Nat.{bit_or}
use dionnex.Base.{
  ℕ, suc, ◌+◌, ◌-◌, ◌*◌, ◌%◌, ◌^◌, ◌≤◌, ◌<◌, ◌≡◌, refl, ◌∙◌, ap, inl, inr, true, false, Option,
  none, some, if◌then◌else◌, leb, Bool-cases, List, [], ◌∷◌, map, ◌==◌, ◌||◌, length, drop, arith,
}
use dionnex.Base.Bits.{bit_or-add}
use dionnex.Strings.Number.{
  u32, rounds, digit_char, is_digit, hex_value, atoi, atoi_digits, atox, atox_digits, skip_0x, utoa,
}
use dionnex.Strings.Number.Digits.{
  low_digits, low_value, Below, low_value-low_digits, low_digits-Below, length-low_digits_le,
  length-low_digits_pos,
}
use dionnex.Strings.Number.Print.{printed, utoa-printed}

digit_char-decimal : (d : ℕ) → d < 10 → (is_digit (digit_char d) ≡ true) × (digit_char d - b'0' ≡ d)
unfolding digit_char
digit_char-decimal d h = ground arith

atoi_digits-cons :
    (c d n : ℕ) (ys : List ℕ)
    → is_digit c ≡ true
    → c - b'0' ≡ d
    → atoi_digits (c ∷ ys) n
      ≡ (if leb (2 ^ 31) (n * 10 + d) then none else atoi_digits ys (n * 10 + d))
unfolding atoi_digits
atoi_digits-cons c d n ys digit value = rw (digit, value) refl

-- Digits are read unless their value is no `int`.
pub atoi_digits-reverse :
    (ds ys : List ℕ)
    → Below 10 ds
    → atoi_digits (reverse_aux (map digit_char ds) ys) 0
      ≡ (if leb (2 ^ 31) (low_value 10 ds) then none else atoi_digits ys (low_value 10 ds))
unfolding Below low_value
atoi_digits-reverse [] ys all = refl
atoi_digits-reverse (d ∷ ds) ys all =
    let (digit, value) = digit_char-decimal d all.0 in
    let n = low_value 10 ds in
    atoi_digits-reverse ds (digit_char d ∷ ys) all.1 ∙ elim (Bool-cases (leb (2 ^ 31) n)) [
      | inl over ↦
          let over' : leb (2 ^ 31) (low_value 10 (d ∷ ds)) ≡ true = ground (arith, over) in
          rw (over, over') refl
      | inr fits ↦ rw fits (atoi_digits-cons (digit_char d) d n ys digit value)
    ]

pub atoi_digits-nul : (rest : List ℕ) (n : ℕ) → atoi_digits (0 ∷ rest) n ≡ some n
unfolding atoi_digits
atoi_digits-nul rest n = refl

-- A text that starts with a digit has no blanks and no sign to pass over.
atoi-digit : (c : ℕ) (s : List ℕ) → is_digit c ≡ true → atoi (c ∷ s) ≡ atoi_digits (c ∷ s) 0
unfolding atoi
atoi-digit c s h =
    let blank : (c == 0x20 || c == 0x09) ≡ false = ground arith in
    let minus : (c == b'-') ≡ false = ground arith in
    let plus : (c == b'+') ≡ false = ground arith in rw (blank, minus, plus) refl

head_digit :
    (d : ℕ) (ds ys : List ℕ)
    → Below 10 (d ∷ ds)
    → (c : ℕ) × (s : List ℕ) × (reverse_aux (map digit_char ds) (digit_char d ∷ ys) ≡ c ∷ s)
      × (is_digit c ≡ true)
unfolding Below
head_digit d [] ys all = (digit_char d, ys, refl, (digit_char-decimal d all.0).0)
head_digit d (e ∷ ds) ys all = head_digit e ds (digit_char d ∷ ys) all.1

pub atoi-reverse :
    (ds rest : List ℕ)
    → 0 < length ds
    → Below 10 ds
    → atoi (reverse_aux (map digit_char ds) (0 ∷ rest))
      ≡ (if leb (2 ^ 31) (low_value 10 ds) then none else some (low_value 10 ds))
atoi-reverse [] rest pos all = elim pos [ ]
atoi-reverse (d ∷ ds) rest pos all =
    let (c, s, shape, digit) = head_digit d ds (0 ∷ rest) all in
    let run = atoi_digits-reverse (d ∷ ds) (0 ∷ rest) all in
    (rw shape (atoi-digit c s digit ∙ rw shape at run))
    ∙ ap (λ (o : Option ℕ). if leb (2 ^ 31) (low_value 10 (d ∷ ds)) then none else o)
        (atoi_digits-nul rest (low_value 10 (d ∷ ds)))

-- `utoa` in base 10 of a 32-bit number into a buffer of at least 11 bytes succeeds, and `atoi` of
-- the result is the number if it is below 2 ^ 31; otherwise `atoi` overflows.
pub atoi-utoa :
    (val : ℕ) (room : List ℕ)
    → val < 2 ^ 32
    → 11 ≤ length room
    → (out : List ℕ) × (utoa val room 10 ≡ some out)
      × (atoi out ≡ (if leb (2 ^ 31) val then none else some val))
unfolding printed
atoi-utoa val room word place =
    let ds = low_digits rounds val 10 in
    let few = length-low_digits_le rounds val 10 10 (omega arith) (omega arith) (omega arith) in
    let behind = drop (suc (length ds)) room in
    let same = low_value-low_digits rounds val 10 (omega arith) (omega arith) in
    (
      printed val 10 (0 ∷ behind),
      utoa-printed val 10 room word (omega arith) (omega arith) (omega arith),
      atoi-reverse ds behind (length-low_digits_pos 33 val 10)
            (low_digits-Below rounds val 10 (omega arith))
          ∙ ap (λ (n : ℕ). if leb (2 ^ 31) n then none else some n) same,
    )

digit_char-hex : (d : ℕ) → d < 16 → hex_value (digit_char d) ≡ some d
unfolding digit_char hex_value
digit_char-hex d h = ground arith

atox_digits-cons :
    (d n : ℕ) (ys : List ℕ)
    → d < 16
    → atox_digits (digit_char d ∷ ys) (u32 n) ≡ atox_digits ys (u32 (n * 16 + d))
unfolding atox_digits
atox_digits-cons d n ys h =
    let shifted : u32 (u32 n * 16) ≡ (n % 2 ^ 28) * 2 ^ 4 = omega arith in
    let sum : bit_or (u32 (u32 n * 16)) d ≡ u32 (n * 16 + d) =
      rw shifted (bit_or-add 4 (n % 2 ^ 28) d h ∙ omega arith) in
    rw (digit_char-hex d h, atox_digits) (rw sum refl)

atox_digits-nul : (rest : List ℕ) (n : ℕ) → atox_digits (0 ∷ rest) n ≡ some n
unfolding atox_digits hex_value
atox_digits-nul rest n = refl

atox_digits-reverse :
    (ds ys : List ℕ)
    → Below 16 ds
    → atox_digits (reverse_aux (map digit_char ds) ys) 0 ≡ atox_digits ys (u32 (low_value 16 ds))
unfolding Below low_value
atox_digits-reverse [] ys all = refl
atox_digits-reverse (d ∷ ds) ys all =
    atox_digits-reverse ds (digit_char d ∷ ys) all.1 ∙ atox_digits-cons d (low_value 16 ds) ys all.0

-- What `atox` passes over is no part of a text of digits: no blank comes first, and no 'x' second.
abbrev Plain : List ℕ → Type 0
Plain [] = ⊥
Plain (c ∷ s) =
    ((c == 0x20 || c == 0x09) ≡ false)
    × ((c == b'x' || c == b'X') ≡ false)
    × (skip_0x (c ∷ s) ≡ c ∷ s)

Plain-cons : (d : ℕ) (s : List ℕ) → d < 16 → Plain s → Plain (digit_char d ∷ s)
unfolding skip_0x digit_char
Plain-cons d [] h p = absurd p
Plain-cons d (c ∷ s) h p =
    let no_x : (c == b'x' || c == b'X') ≡ false = p.1 in
    (ground arith, ground arith, rw no_x (ground arith))

Plain-reverse :
    (ds ys : List ℕ) → Below 16 ds → Plain ys → Plain (reverse_aux (map digit_char ds) ys)
unfolding Below
Plain-reverse [] ys all p = p
Plain-reverse (d ∷ ds) ys all p =
    Plain-reverse ds (digit_char d ∷ ys) all.1 (Plain-cons d ys all.0 p)

atox-Plain : (s : List ℕ) → Plain s → atox s ≡ atox_digits s 0
unfolding atox
atox-Plain [] p = absurd p
atox-Plain (c ∷ s) p = rw p.0 (rw p.2 refl)

Plain-nul : (rest : List ℕ) → Plain (0 ∷ rest)
unfolding skip_0x
Plain-nul [] = (refl, refl, refl)
Plain-nul (b ∷ rest) = (refl, refl, refl)

-- `utoa` in base 16 into a buffer of at least 9 bytes, then `atox`, gives the number back.
pub atox-utoa :
    (val : ℕ) (room : List ℕ)
    → val < 2 ^ 32
    → 9 ≤ length room
    → (out : List ℕ) × (utoa val room 16 ≡ some out) × (atox out ≡ some val)
unfolding printed
atox-utoa val room word place =
    let ds = low_digits rounds val 16 in
    let few = length-low_digits_le rounds val 16 8 (omega arith) (omega arith) (omega arith) in
    let behind = drop (suc (length ds)) room in
    let all = low_digits-Below rounds val 16 (omega arith) in
    let same = low_value-low_digits rounds val 16 (omega arith) (omega arith) in
    let run = atox_digits-reverse ds (0 ∷ behind) all in
    (
      printed val 16 (0 ∷ behind),
      utoa-printed val 16 room word (omega arith) (omega arith) (omega arith),
      atox-Plain _ (Plain-reverse ds (0 ∷ behind) all (Plain-nul behind))
          ∙ run
          ∙ atox_digits-nul behind _
          ∙ ap some (omega (arith, same)),
    )
