-- ===== src/Strings/Number/Signed.antt =====
-- `itoa` in base 10, and `atoi` of what it printed.
use mathlib.Core.List.{reverse_aux}
use dionnex.Base.{
  ℕ, suc, ◌+◌, ◌-◌, ◌^◌, ◌≤◌, ◌<◌, ◌≡◌, ◌≢◌, false, refl, sym, ◌∙◌, ap, inl, inr, some, List, [],
  ◌∷◌, ◌++◌, map, if◌then◌else◌, leb, length, drop, arith, length-map, Bool-cases, ◌>>=◌,
}
use dionnex.Strings.Memory.{store}
use dionnex.Strings.Memory.Cursor.{snoc-append, length-snoc}
use dionnex.Strings.Number.{
  negate, rounds, digit_char, skip_blanks, put_digits, reverse_range, itoa, atoi, atoi_digits,
  atoi_signed,
}
use dionnex.Strings.Number.Digits.{
  low_digits, length-low_digits_le, length-low_digits_pos, put_digits-low_digits, low_digits-Below,
  low_value, low_value-low_digits,
}
use dionnex.Strings.Number.Print.{printed, store_after, turn}
use dionnex.Strings.Number.RoundTrip.{atoi-reverse, atoi_digits-reverse, atoi_digits-nul}

reverse_aux-snoc :
    (xs ys : List ℕ) (c : ℕ) → reverse_aux (xs ++ (c ∷ [])) ys ≡ c ∷ reverse_aux xs ys
reverse_aux-snoc [] ys c = refl
reverse_aux-snoc (x ∷ xs) ys c = reverse_aux-snoc xs (x ∷ ys) c

-- What is left in the buffer, before what it held.
abbrev pub signed_text : ℕ → List ℕ → List ℕ
signed_text val behind =
    if leb (2 ^ 31) val then b'-' ∷ printed (2 ^ 32 - val) 10 behind else printed val 10 behind

-- `put_digits` of a number in base 10.
put_decimal :
    (val : ℕ) (room : List ℕ)
    → val < 2 ^ 32
    → 12 ≤ length room
    → put_digits rounds val 10 room 0
      ≡ some (
        map digit_char (low_digits rounds val 10) ++ drop (length (low_digits rounds val 10)) room,
        length (low_digits rounds val 10),
      )
put_decimal val room word place =
    let ds = low_digits rounds val 10 in
    let few = length-low_digits_le rounds val 10 10 (omega arith) (omega arith) (omega arith) in
    put_digits-low_digits rounds val 10 [] room (omega arith) (omega arith) (omega arith)
      (omega (arith, few, place))
    ∙ ap (λ (n : ℕ). some (map digit_char ds ++ drop (length ds) room, n)) (omega arith)

-- The sign and the NUL behind the digits, and the turn.
sign-turn :
    (digits room : List ℕ) (n : ℕ)
    → length digits ≡ n
    → n ≤ 10
    → 12 ≤ length room
    → (do
      signed ← store (digits ++ drop n room) n b'-'
      ended ← store signed (n + 1) 0
      reverse_range rounds ended 0 (n + 1 - 1))
      ≡ some (b'-' ∷ reverse_aux digits (0 ∷ drop (suc (n + 1)) room))
sign-turn digits room n len few place =
    let signed = digits ++ (b'-' ∷ []) in
    let behind = drop (suc (n + 1)) room in
    let len' : length signed ≡ n + 1 = omega (arith, length-snoc digits b'-', len) in
    let minus = store_after digits room n b'-' len (omega (arith, few, place)) in
    let next : suc n ≡ n + 1 = omega arith in
    let shape : digits ++ (b'-' ∷ drop (suc n) room) ≡ signed ++ drop (n + 1) room =
      sym (snoc-append digits b'-' (drop (suc n) room))
      ∙ ap (λ (k : ℕ). signed ++ drop k room) next in
    let nul = store_after signed room (n + 1) 0 len' (omega (arith, few, place)) in
    let turned = turn rounds signed (0 ∷ behind) (n + 1) len' (omega arith) (omega (arith, few)) in
    rw minus (rw shape (rw nul (turned ∙ ap some (reverse_aux-snoc digits (0 ∷ behind) b'-'))))

-- `itoa` in base 10 of a 32-bit pattern leaves the text of the signed number, and a NUL.
pub itoa-signed_text :
    (val : ℕ) (room : List ℕ)
    → val < 2 ^ 32
    → 12 ≤ length room
    → (behind : List ℕ) × (itoa val room 10 ≡ some (signed_text val (0 ∷ behind)))
unfolding itoa printed
itoa-signed_text val room word place = elim (Bool-cases (leb (2 ^ 31) val)) [
  | inl minus ↦
      let size : negate val ≡ 2 ^ 32 - val = ground (arith, minus) in
      let ds = low_digits rounds (2 ^ 32 - val) 10 in
      let small : 2 ^ 32 - val < 2 ^ 32 = ground (arith, minus) in
      let few =
        length-low_digits_le rounds (2 ^ 32 - val) 10 10 (omega arith) (omega arith)
          (omega (arith, small)) in
      let put = put_decimal (2 ^ 32 - val) room small place in
      (
        drop (suc (length ds + 1)) room,
        rw (minus, size)
            (rw put (
              sign-turn (map digit_char ds) room (length ds) (length-map ds digit_char) few place)),
      )
  | inr plus ↦
      let ds = low_digits rounds val 10 in
      let behind = drop (suc (length ds)) room in
      let few = length-low_digits_le rounds val 10 10 (omega arith) (omega arith) (omega arith) in
      let len = length-map ds digit_char in
      let nul =
        store_after (map digit_char ds) room (length ds) 0 len (omega (arith, few, place)) in
      (
        behind,
        rw plus (
            rw (put_decimal val room word place) (
              rw nul (
                turn rounds (map digit_char ds) (0 ∷ behind) (length ds) len
                  (length-low_digits_pos 33 val 10) (omega (arith, few))))),
      )
]

atoi-minus : (s : List ℕ) → atoi (b'-' ∷ s) ≡ (do res ← atoi_digits s 0; some (negate res))
unfolding atoi atoi_signed skip_blanks
atoi-minus s = refl

-- `itoa` in base 10 of any 32-bit pattern but that of the least `int` into a buffer of at least 12
-- bytes succeeds, and `atoi` of the result is the pattern: the sign is read back.
pub atoi-itoa :
    (val : ℕ) (room : List ℕ)
    → val < 2 ^ 32
    → val ≢ 2 ^ 31
    → 12 ≤ length room
    → (out : List ℕ) × (itoa val room 10 ≡ some out) × (atoi out ≡ some val)
unfolding printed
atoi-itoa val room word least place =
    let (behind, run) = itoa-signed_text val room word place in
    elim (Bool-cases (leb (2 ^ 31) val)) [
      | inl minus ↦
          let m = 2 ^ 32 - val in
          let ds = low_digits rounds m 10 in
          let same = low_value-low_digits rounds m 10 (omega arith) (ground (arith, minus)) in
          let fits : leb (2 ^ 31) (low_value 10 ds) ≡ false = ground (arith, same, minus, least) in
          let read =
            rw fits at
              (atoi_digits-reverse ds (0 ∷ behind) (low_digits-Below rounds m 10 (omega arith)))
            ∙ atoi_digits-nul behind (low_value 10 ds) in
          let value : negate (low_value 10 ds) ≡ val = ground (arith, same, minus) in
          (
            b'-' ∷ reverse_aux (map digit_char ds) (0 ∷ behind),
            rw minus at run,
            atoi-minus (reverse_aux (map digit_char ds) (0 ∷ behind)) ∙ rw read (ap some value),
          )
      | inr plus ↦
          let ds = low_digits rounds val 10 in
          let same = low_value-low_digits rounds val 10 (omega arith) (omega arith) in
          let fits : leb (2 ^ 31) (low_value 10 ds) ≡ false = ground (arith, same, plus) in
          (
            reverse_aux (map digit_char ds) (0 ∷ behind),
            rw plus at run,
            rw fits at (
                  atoi-reverse ds behind (length-low_digits_pos 33 val 10)
                    (low_digits-Below rounds val 10 (omega arith)))
                ∙ ap some (omega (arith, same)),
          )
    ]
