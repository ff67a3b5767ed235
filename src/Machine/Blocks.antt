-- ===== src/Machine/Blocks.antt =====
-- What `memset` and `memcpy` leave in the block that they write.
use dionnex.Base.{
  ℕ, zero, suc, ◌+◌, ◌-◌, ◌%◌, ◌^◌, ◌≤◌, ◌<◌, ◌≡◌, ◌≢◌, refl, ap, ◌∙◌, ◌⊎◌, inl, inr, true, ◌==◌,
  arith, Bool-cases,
}
use dionnex.Machine.{Memory, set_byte, set_bytes, copy_bytes}
use dionnex.Machine.Words.{set_byte-other, set_bytes-Outside, copy_bytes-Outside}
use dionnex.Strings.Number.{u32}

set_byte_same : (mem : Memory) (a v x : ℕ) → x ≡ a → set_byte mem a v x ≡ v % 256
set_byte_same mem a v x e = let here : (x == a) ≡ true = ground (arith, e) in rw here refl

pub set_bytes_inside :
    (n : ℕ) (mem : Memory) (dest c x : ℕ)
    → dest + n < 2 ^ 32
    → dest ≤ x
    → x < dest + n
    → set_bytes mem dest c n x ≡ c % 256
unfolding set_bytes
set_bytes_inside zero mem dest c x low from to = absurd (omega (arith, from, to))
set_bytes_inside (suc n) mem dest c x low from to =
    let next : u32 (dest + 1) ≡ dest + 1 = omega (arith, low) in
    elim (Bool-cases (x == dest)) [
      | inl e ↦
          let same : x ≡ dest = ground (arith, e) in
          rw next (
            set_bytes-Outside n (set_byte mem dest c) (dest + 1) c x (omega (arith, low))
              (inl (omega (arith, same))))
          ∙ set_byte_same mem dest c x same
      | inr e ↦
          let later : dest + 1 ≤ x = ground (arith, e, from) in
          rw next (
            set_bytes_inside n (set_byte mem dest c) (dest + 1) c x (omega (arith, low)) later
              (omega (arith, to)))
    ]

-- From a block that lies behind the other, or before it.
pub copy_bytes_inside :
    (n : ℕ) (mem : Memory) (dest src x : ℕ)
    → dest + n < 2 ^ 32
    → src + n < 2 ^ 32
    → (dest + n ≤ src) ⊎ (src + n ≤ dest)
    → dest ≤ x
    → x < dest + n
    → copy_bytes mem dest src n x ≡ mem (src + (x - dest)) % 256
unfolding copy_bytes
copy_bytes_inside zero mem dest src x low room apart from to = absurd (omega (arith, from, to))
copy_bytes_inside (suc n) mem dest src x low room apart from to =
    let next : u32 (dest + 1) ≡ dest + 1 = omega (arith, low) in
    let next' : u32 (src + 1) ≡ src + 1 = omega (arith, room) in
    elim (Bool-cases (x == dest)) [
      | inl e ↦
          let same : x ≡ dest = ground (arith, e) in
          let first : src + (x - dest) ≡ src = omega (arith, same) in
          rw (next, next', first)
            (copy_bytes-Outside n (set_byte mem dest (mem src)) (dest + 1) (src + 1) x
                (omega (arith, low)) (inl (omega (arith, same)))
              ∙ set_byte_same mem dest (mem src) x same)
      | inr e ↦
          let later : dest + 1 ≤ x = ground (arith, e, from) in
          let place : src + 1 + (x - (dest + 1)) ≡ src + (x - dest) = omega (arith, later) in
          let other : src + (x - dest) ≢ dest = not_there src n dest x apart from to in
          rw (next, next')
            (copy_bytes_inside n (set_byte mem dest (mem src)) (dest + 1) (src + 1) x
                (omega (arith, low)) (omega (arith, room)) (closer src n dest apart) later
                (omega (arith, to))
              ∙ rw place (
                  ap (λ (v : ℕ). v % 256)
                    (set_byte-other mem dest (mem src) (src + (x - dest)) other)))
    ]
  where
    closer :
        (src n dest : ℕ)
        → (dest + suc n ≤ src) ⊎ (src + suc n ≤ dest)
        → (dest + 1 + n ≤ src + 1) ⊎ (src + 1 + n ≤ dest + 1)
    closer src n dest (inl h) = inl (omega (arith, h))
    closer src n dest (inr h) = inr (omega (arith, h))

    not_there :
        (src n dest x : ℕ)
        → (dest + suc n ≤ src) ⊎ (src + suc n ≤ dest)
        → dest ≤ x
        → x < dest + suc n
        → src + (x - dest) ≢ dest
    not_there src n dest x (inl h) from to = λ e. absurd (omega (arith, h, from, to, e))
    not_there src n dest x (inr h) from to = λ e. absurd (omega (arith, h, from, to, e))
