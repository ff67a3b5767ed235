-- ===== src/Strings/Number/Shown.antt =====
-- The text of a number: what `utoa` leaves before the NUL.
use mathlib.Core.List.{reverse_aux}
use dionnex.Base.{
  ℕ, suc, ◌+◌, ◌^◌, ◌≤◌, ◌<◌, ◌≡◌, refl, sym, ap, ◌∙◌, some, List, [], ◌∷◌, ◌++◌, map, drop, length,
  length-map, arith, append_assoc,
}
use dionnex.Strings.Number.{digit_char, rounds, utoa}
use dionnex.Strings.Number.Digits.{low_digits, length-low_digits_le}
use dionnex.Strings.Number.Print.{printed, utoa-printed}
use dionnex.Strings.Text.Content.{text_of, NoNul, text_of-append}

reverse_aux-append : (xs ys : List ℕ) → reverse_aux xs ys ≡ reverse_aux xs [] ++ ys
reverse_aux-append [] ys = refl
reverse_aux-append (x ∷ xs) ys =
    reverse_aux-append xs (x ∷ ys)
    ∙ sym (append_assoc (reverse_aux xs []) (x ∷ []) ys)
    ∙ ap (λ (t : List ℕ). t ++ ys) (sym (reverse_aux-append xs (x ∷ [])))

pub printed-append :
    (val base : ℕ) (behind : List ℕ) → printed val base behind ≡ printed val base [] ++ behind
unfolding printed
printed-append val base behind =
    reverse_aux-append (map digit_char (low_digits rounds val base)) behind

NoNul-reverse_aux : (ds acc : List ℕ) → NoNul acc → NoNul (reverse_aux (map digit_char ds) acc)
unfolding digit_char
NoNul-reverse_aux [] acc clean = clean
NoNul-reverse_aux (d ∷ ds) acc clean =
    NoNul-reverse_aux ds (digit_char d ∷ acc) ((λ e. absurd (ground (arith, e))), clean)

pub printed-NoNul : (val base : ℕ) → NoNul (printed val base [])
unfolding printed
printed-NoNul val base = NoNul-reverse_aux (low_digits rounds val base) [] tt

length-reverse_aux : (xs ys : List ℕ) → length (reverse_aux xs ys) ≡ length xs + length ys
length-reverse_aux [] ys = omega arith
length-reverse_aux (x ∷ xs) ys = omega (arith, length-reverse_aux xs (x ∷ ys))

-- A number below `base ^ 10` is at most 10 characters long.
pub length-printed_le :
    (val base : ℕ) → 2 ≤ base → val < base ^ 10 → length (printed val base []) ≤ 10
unfolding printed
length-printed_le val base two ten =
    let ds = low_digits rounds val base in
    omega (
      arith,
      length-low_digits_le rounds val base 10 two (omega arith) ten,
      length-reverse_aux (map digit_char ds) [],
      length-map ds digit_char,
    )

pub utoa-text :
    (val base : ℕ) (room : List ℕ)
    → val < 2 ^ 32
    → 10 ≤ base
    → base ≤ 36
    → val < base ^ 10
    → 10 < length room
    → (buf : List ℕ) × (utoa val room base ≡ some buf) × (text_of buf ≡ some (printed val base []))
utoa-text val base room word low high ten place =
    let few = length-low_digits_le rounds val base 10 (omega arith) (omega arith) ten in
    let behind = drop (suc (length (low_digits rounds val base))) room in
    (
      printed val base (0 ∷ behind),
      utoa-printed val base room word (omega arith) high (omega (arith, few)),
      rw (printed-append val base (0 ∷ behind))
          (text_of-append (printed val base []) behind (printed-NoNul val base)),
    )
