-- ===== src/Strings/Number/Print.antt =====
-- `utoa`: the buffer holds the digits of the number, highest first, and a NUL.
use mathlib.Core.List.{reverse_aux}
use dionnex.Base.{
  ℕ, zero, suc, ◌+◌, ◌-◌, ◌*◌, ◌^◌, ◌≤◌, ◌<◌, ◌≡◌, refl, ◌∙◌, ap, inl, inr, true, false, some, List,
  [], ◌∷◌, ◌++◌, map, if◌then◌else◌, ltb, leb, ◌&&◌, get_elem?, set, length, drop, arith,
  length-append, length-map, length-set, Bool-cases, ltb→lt,
}
use mathlib.Core.Path.{subst}
use dionnex.Base.Places.{
  get_elem?-set, get_elem?_total, get_elem?-append, get_elem?-reverse_aux, eq_of_places,
}
use dionnex.Strings.Memory.{store}
use dionnex.Strings.Memory.Cursor.{store-middle}
use dionnex.Strings.Number.{rounds, digit_char, put_digits, reverse_range, utoa}
use dionnex.Strings.Number.Digits.{
  low_digits, length-low_digits_pos, length-low_digits, put_digits-low_digits,
}

abbrev Reversed : List ℕ → ℕ → ℕ → List ℕ → Type 0
Reversed buf start end out =
    (i : ℕ)
    → get_elem? out i
      ≡ (if leb start i && leb i end then get_elem? buf (start + end - i) else get_elem? buf i)

reverse_range_round :
    (fuel : ℕ) (buf : List ℕ) (start end tmp last : ℕ)
    → ltb start end ≡ true
    → end < length buf
    → get_elem? buf start ≡ some tmp
    → get_elem? buf end ≡ some last
    → reverse_range (suc fuel) buf start end
      ≡ reverse_range fuel (set (set buf start last) end tmp) (start + 1) (end - 1)
unfolding reverse_range store
reverse_range_round fuel buf start end tmp last lt fits at_start at_end =
    let len = length-set buf start last in
    let in₁ : ltb start (length buf) ≡ true = ground arith in
    let in₂ : ltb end (length (set buf start last)) ≡ true = ground (arith, len) in
    rw (lt, at_start, at_end, in₁) (rw in₂ refl)

swap_cell :
    (buf : List ℕ) (start end tmp last i : ℕ)
    → start < end
    → end < length buf
    → get_elem? buf start ≡ some tmp
    → get_elem? buf end ≡ some last
    → (if leb (start + 1) i && leb i (end - 1)
        then get_elem? (set (set buf start last) end tmp) (start + 1 + (end - 1) - i)
        else get_elem? (set (set buf start last) end tmp) i)
      ≡ (if leb start i && leb i end then get_elem? buf (start + end - i) else get_elem? buf i)
swap_cell buf start end tmp last i lt fits at_start at_end = ground (
  arith,
  length-set buf start last,
  get_elem?-set (set buf start last) end i tmp,
  get_elem?-set (set buf start last) end (start + 1 + (end - 1) - i) tmp,
  get_elem?-set buf start i last,
  get_elem?-set buf start (start + 1 + (end - 1) - i) last,
)

reverse_range-Reversed :
    (fuel : ℕ) (buf : List ℕ) (start end : ℕ)
    → end < length buf
    → end - start + 1 < 2 * fuel
    → (out : List ℕ) × (reverse_range fuel buf start end ≡ some out) × Reversed buf start end out
reverse_range-Reversed zero buf start end fits enough = absurd (omega arith)
reverse_range-Reversed (suc fuel) buf start end fits enough = elim (Bool-cases (ltb start end)) [
  | inl swap ↦
      let lt : start < end = ltb→lt _ _ swap in
      let (tmp, at_start) = get_elem?_total buf start (omega arith) in
      let (last, at_end) = get_elem?_total buf end fits in
      let len₁ = length-set buf start last in
      let len₂ = length-set (set buf start last) end tmp in
      let (out, run, cell) =
        reverse_range-Reversed fuel (set (set buf start last) end tmp) (start + 1) (end - 1)
          (omega arith) (omega arith) in
      (
        out,
        reverse_range_round fuel buf start end tmp last swap fits at_start at_end ∙ run,
        λ i. cell i ∙ swap_cell buf start end tmp last i lt fits at_start at_end,
      )
  | inr done ↦ (buf, unfold reverse_range in rw done refl, λ i. ground arith)
]

-- Reversing the places before the NUL reverses the text.
reverse_range-reverse_aux :
    (fuel : ℕ) (ds rest : List ℕ)
    → 0 < length ds
    → length ds < 2 * fuel
    → reverse_range fuel (ds ++ rest) 0 (length ds - 1) ≡ some (reverse_aux ds rest)
reverse_range-reverse_aux fuel ds rest pos enough =
    let len = length-append ds rest in
    let (out, run, cell) =
      reverse_range-Reversed fuel (ds ++ rest) 0 (length ds - 1) (omega arith) (omega arith) in
    run ∙ ap some (eq_of_places out (reverse_aux ds rest) λ i. cell i ∙ place i)
  where
    place :
        (i : ℕ)
        → (if leb 0 i && leb i (length ds - 1)
            then get_elem? (ds ++ rest) (0 + (length ds - 1) - i)
            else get_elem? (ds ++ rest) i)
          ≡ get_elem? (reverse_aux ds rest) i
    place i = ground (
      arith,
      get_elem?-append ds rest i,
      get_elem?-append ds rest (0 + (length ds - 1) - i),
      get_elem?-reverse_aux ds rest i,
    )

drop_uncons : (n : ℕ) (xs : List ℕ) → n < length xs → (x : ℕ) × (drop n xs ≡ x ∷ drop (suc n) xs)
drop_uncons n [] h = elim h [ ]
drop_uncons zero (x ∷ xs) h = (x, refl)
drop_uncons (suc n) (x ∷ xs) h = drop_uncons n xs (omega arith)

pub store_after :
    (text room : List ℕ) (n v : ℕ)
    → length text ≡ n
    → n < length room
    → store (text ++ drop n room) n v ≡ some (text ++ (v ∷ drop (suc n) room))
store_after text room n v e h =
    let (x, uncons) = drop_uncons n room h in
    let behind = drop (suc n) room in
    let here =
      subst (λ k. store (text ++ (x ∷ behind)) k v ≡ some (text ++ (v ∷ behind))) e
        (store-middle text x v behind) in
    rw uncons here

pub turn :
    (fuel : ℕ) (text rest : List ℕ) (n : ℕ)
    → length text ≡ n
    → 0 < n
    → n < 2 * fuel
    → reverse_range fuel (text ++ rest) 0 (n - 1) ≡ some (reverse_aux text rest)
turn fuel text rest n e pos enough =
    subst (λ k. reverse_range fuel (text ++ rest) 0 (k - 1) ≡ some (reverse_aux text rest)) e
      (reverse_range-reverse_aux fuel text rest (omega arith) (omega arith))

-- The text that `utoa` prints, before a NUL and what the buffer held.
unfoldable pub printed : ℕ → ℕ → List ℕ → List ℕ
printed val base behind = reverse_aux (map digit_char (low_digits rounds val base)) behind

pub utoa-printed :
    (val base : ℕ) (room : List ℕ)
    → val < 2 ^ 32
    → 2 ≤ base
    → base ≤ 36
    → length (low_digits rounds val base) < length room
    → utoa val room base
      ≡ some (printed val base (0 ∷ drop (suc (length (low_digits rounds val base))) room))
unfolding utoa printed
utoa-printed val base room word two top place =
    let ds = low_digits rounds val base in
    let text = map digit_char ds in
    let len = length-map ds digit_char in
    let low : ltb base 2 ≡ false = ground arith in
    let high : ltb 36 base ≡ false = ground arith in
    let put : put_digits rounds val base room 0 ≡ some (text ++ drop (length ds) room, length ds) =
      put_digits-low_digits rounds val base [] room two (omega arith) (omega arith) (omega arith)
      ∙ ap (λ (n : ℕ). some (text ++ drop (length ds) room, n)) (omega arith) in
    let nul = store_after text room (length ds) 0 len place in
    let behind = drop (suc (length ds)) room in
    let most = length-low_digits rounds val base in
    let least = length-low_digits_pos 33 val base in
    rw (low, high, put) (rw nul (turn rounds text (0 ∷ behind) (length ds) len least (omega arith)))
