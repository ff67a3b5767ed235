-- ===== src/Vmm/Table.antt =====
-- The words that the loops over a table write, and the bits of an entry.
use Prim.Native.Nat.{bit_or, max}
use dionnex.Base.{
  ℕ, zero, suc, ◌+◌, ◌*◌, ◌/◌, ◌^◌, ◌≤◌, ◌<◌, ◌≡◌, refl, ap, ◌∙◌, ◌⊎◌, inl, ◌==◌, true, false,
  arith,
}
use dionnex.Base.Bits.{bit_or-halve, bit_or-zero}
use native.Mathlib.Nat.{pow-suc, div-div-eq-div-mul}
use dionnex.Vmm.{put_word, clear_table, present, frame, user}

-- Outside the table nothing changes.
pub clear_table-outside :
    (n at : ℕ) (words : ℕ → ℕ) (a : ℕ)
    → (a < at) ⊎ (at + 4 * n ≤ a)
    → clear_table n at words a ≡ words a
unfolding clear_table
clear_table-outside zero at words a out = refl
clear_table-outside (suc n) at words a out =
    let apart : (a == at) ≡ false = ground (arith, out) in
    clear_table-outside n (at + 4) (put_word words at 0) a (ground (arith, out)) ∙ rw apart refl

pub clear_table-inside :
    (n at : ℕ) (words : ℕ → ℕ) (k : ℕ) → k < n → clear_table n at words (at + 4 * k) ≡ 0
unfolding clear_table
clear_table-inside zero at words k lt = elim lt [ ]
clear_table-inside (suc n) at words zero lt =
    let here : at + 4 * 0 ≡ at = omega arith in
    let same : (at == at) ≡ true = ground arith in
    rw here
      (clear_table-outside n (at + 4) (put_word words at 0) at (inl (omega arith)) ∙ rw same refl)
clear_table-inside (suc n) at words (suc k) lt =
    let next : at + 4 * suc k ≡ at + 4 + 4 * k = omega arith in
    rw next (clear_table-inside n (at + 4) (put_word words at 0) k (omega arith))

-- Division by a power of two goes through `|`.
pub bit_or-div : (a b k : ℕ) → bit_or a b / 2 ^ k ≡ bit_or (a / 2 ^ k) (b / 2 ^ k)
bit_or-div a b zero =
    let left : a / 2 ^ 0 ≡ a = omega arith in
    let right : b / 2 ^ 0 ≡ b = omega arith in
    let both : bit_or a b / 2 ^ 0 ≡ bit_or a b = omega arith in rw (left, right, both) refl
bit_or-div a b (suc k) =
    let two : 2 ^ suc k ≡ 2 * 2 ^ k = omega (arith, pow-suc 2 k) in
    let half : bit_or a b / 2 ≡ bit_or (a / 2) (b / 2) = omega (arith, bit_or-halve a b) in
    rw two (
      rw (← div-div-eq-div-mul, ← div-div-eq-div-mul, ← div-div-eq-div-mul)
        (rw half (bit_or-div (a / 2) (b / 2) k)))

-- Flags below the address do not change it.
pub frame-bit_or : (a r : ℕ) → r < 4096 → frame (bit_or a r) ≡ frame a
frame-bit_or a r h =
    let none_left : r / 2 ^ 12 ≡ 0 = omega arith in
    let same : bit_or a r / 2 ^ 12 ≡ a / 2 ^ 12 =
      bit_or-div a r 12 ∙ rw none_left (bit_or-zero (a / 2 ^ 12)) in
    ap (λ (t : ℕ). t * 4096) same

pub present-bit_or : (a b : ℕ) → present (bit_or a b) ≡ max (present a) (present b)
present-bit_or a b = omega (arith, bit_or-halve a b)

-- The entry that `vmm_map_page` makes for a new table.
pub table_entry_lem :
    (q flags : ℕ)
    → let e = bit_or (bit_or (bit_or (q * 4096) 1) 2) (user flags) in
      (frame e ≡ q * 4096) × (present e ≡ 1)
table_entry_lem q flags =
    let one = bit_or (q * 4096) 1 in
    let two = bit_or one 2 in
    (
      frame-bit_or two (user flags) (omega arith)
          ∙ frame-bit_or one 2 (omega arith)
          ∙ frame-bit_or (q * 4096) 1 (omega arith)
          ∙ omega arith,
      omega (
        arith,
        present-bit_or two (user flags),
        present-bit_or one 2,
        present-bit_or (q * 4096) 1,
      ),
    )

-- The entry that it makes for a page.
pub page_entry_lem :
    (phys flags : ℕ)
    → flags < 4096
    → let e = bit_or (bit_or (frame phys) flags) 1 in (frame e ≡ frame phys) × (present e ≡ 1)
page_entry_lem phys flags h =
    let mapped = bit_or (frame phys) flags in
    (
      frame-bit_or mapped 1 (omega arith) ∙ frame-bit_or (frame phys) flags h ∙ omega arith,
      omega (arith, present-bit_or mapped 1),
    )
